-- ===== src/Wire/DataFrames.antt =====
-- `TCPDataFrame::deserialize` (src/proxy/tcp_protocol.cpp) after `serialize`, and on any buffer. The
-- writer shifts its numbers without converting them; the reader converts what it has shifted
-- together.
use protogate.Base.{
  ℕ, ◌+◌, ◌-◌, ◌<◌, ◌≤◌, ◌^◌, ◌%◌, ◌/◌, ◌≡◌, ◌≢◌, ◌↔◌, ◌∷◌, ◌++◌, arith, length, take, drop, ok,
  err, ltb, if◌then◌else◌, Result, length-append, take_append_len, take_all, [], drop_append_len,
}
use protogate.Wire.Frames.{
  TcpDataFrame, serialize_data, deserialize_data, TcpOpenFrame, serialize_open, deserialize_error,
}
use protogate.Wire.Hosts.{swap16, swap32}
use protogate.Wire.Integers.{IsBytes, get32_lt, get32_at, length-put32}
use protogate.Wire.RoundTrip.{drop_17, drop_21, drop_two32}
use protogate.Wire.{
  Bytes, tcp_data, ByteOrder, WireError, put16, incomplete_data, out_of_bounds, put32, get32,
  byte_at,
}

-- What a frame must satisfy to be written without loss.
pub record IsSendable (f : TcpDataFrame) : Type 0 where
  pub type_is : f.type ≡ tcp_data
  pub id_size : length f.connection_id ≡ 16
  pub sequence_fits : f.sequence_number < 2 ^ 32
  pub payload_fits : length f.payload < 2 ^ 32

module _ (order : ByteOrder) where
  open order use {ntoh32, ntoh32_lt}

  -- On the bytes of a sendable frame with an `n`-byte payload, the reader takes `ntoh32 n` for the
  -- length: it reports missing data, reads out of bounds, or returns so many bytes of the payload.
  abbrev read_back : TcpDataFrame → Result WireError TcpDataFrame
  read_back f =
      let n = length f.payload in
      if ltb (25 + n) ((25 + ntoh32 n) % 2 ^ 32)
      then err incomplete_data
      else if ltb (25 + n) (25 + ntoh32 n)
      then err out_of_bounds
      else ok (record f {
        sequence_number = ntoh32 f.sequence_number;
        payload = take (ntoh32 n) f.payload;
      })

  deserialize-serialize_data :
      (f : TcpDataFrame) → IsSendable f → deserialize_data order (serialize_data f) ≡ read_back f
  unfolding deserialize_data serialize_data
  deserialize-serialize_data f s =
      let seq = put32 f.sequence_number in
      let size = put32 (length f.payload % 2 ^ 32) in
      ground (
        arith,
        length-append f.connection_id (seq ++ (size ++ f.payload)),
        length-append seq (size ++ f.payload),
        length-append size f.payload,
        length-put32 f.sequence_number,
        length-put32 (length f.payload % 2 ^ 32),
        take_append_len 16 f.connection_id (seq ++ (size ++ f.payload)) s.id_size,
        get32_at 17 (serialize_data f) (size ++ f.payload) f.sequence_number
            (drop_17 f.type f.connection_id s.id_size (seq ++ (size ++ f.payload))) s.sequence_fits,
        get32_at 21 (serialize_data f) f.payload (length f.payload % 2 ^ 32)
            (drop_21 f.type f.connection_id s.id_size f.sequence_number (size ++ f.payload))
            (omega arith),
        drop_two32 f.type f.connection_id s.id_size f.sequence_number (length f.payload % 2 ^ 32)
            f.payload,
      )

  -- Where the conversion does nothing, a sendable frame is read back as it was.
  pub deserialize-serialize_data_big :
      (f : TcpDataFrame)
      → IsSendable f
      → length f.payload < 2 ^ 32 - 25
      → ((x : ℕ) → x < 2 ^ 32 → ntoh32 x ≡ x)
      → deserialize_data order (serialize_data f) ≡ ok f
  deserialize-serialize_data_big f s small same = ground (
    arith,
    deserialize-serialize_data f s,
    same (length f.payload) s.payload_fits,
    same f.sequence_number s.sequence_fits,
    take_all (length f.payload) f.payload (omega arith),
  )

  -- Where the conversion reverses the four bytes, no frame with a payload of 1 to 65535 bytes is
  -- read back: the reader reports missing data.
  pub deserialize-serialize_data_little :
      (f : TcpDataFrame)
      → IsSendable f
      → 0 < length f.payload
      → length f.payload < 2 ^ 16
      → ((x : ℕ) → x < 2 ^ 32 → ntoh32 x ≡ swap32 x)
      → deserialize_data order (serialize_data f) ≡ err incomplete_data
  deserialize-serialize_data_little f s pos small reverses =
      ground (arith, deserialize-serialize_data f s, reverses (length f.payload) s.payload_fits)

  -- On a buffer below 2 ^ 32 bytes, `deserialize` of a data frame reads out of bounds exactly if the
  -- header is whole, names a data frame and holds one of the 25 greatest lengths: there the sum in
  -- the length check wraps.
  pub deserialize_data-out_of_bounds :
      (b : Bytes)
      → IsBytes b
      → length b < 2 ^ 32
      → (deserialize_data order b ≡ err out_of_bounds)
        ↔ ((25 ≤ length b) × (byte_at b 0 ≡ tcp_data) × (2 ^ 32 - 25 ≤ ntoh32 (get32 b 21)))
  unfolding deserialize_data
  deserialize_data-out_of_bounds b bytes hb =
      let below = ntoh32_lt (get32 b 21) (get32_lt b 21 bytes) in
      (λ e. ground (arith, below), λ e. ground (arith, below))

  -- `deserialize` of an error frame never reads out of bounds.
  pub deserialize_error-in_bounds : (b : Bytes) → deserialize_error order b ≢ err out_of_bounds
  unfolding deserialize_error
  deserialize_error-in_bounds b e = ground arith

-- On a platform whose conversion reverses the two bytes, an open frame carries its port low byte
-- first.
pub serialize_open-little :
    (order : ByteOrder) (f : TcpOpenFrame)
    → length f.connection_id ≡ 16
    → f.target_port < 2 ^ 16
    → ((x : ℕ) → x < 2 ^ 16 → order.hton16 x ≡ swap16 x)
    → drop 17 (serialize_open order f) ≡ f.target_port % 256 ∷ f.target_port / 256 ∷ []
unfolding serialize_open put16
serialize_open-little order f hid hp reverses = ground (
  arith,
  reverses f.target_port hp,
  drop_append_len 16 f.connection_id (put16 (order.hton16 f.target_port)) hid,
)
