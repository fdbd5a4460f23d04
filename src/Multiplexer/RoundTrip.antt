-- ===== src/Multiplexer/RoundTrip.antt =====
-- `TCPFrame::deserialize` on what `TCPFrame::serialize` wrote, whatever stands behind it.
use protogate.Base.{
  ℕ, ◌+◌, ◌%◌, ◌^◌, ◌<◌, ◌≡◌, refl, ◌++◌, arith, length, drop, ok, length-append, take_append_len,
  drop_append_len, drop-add, append_assoc,
}
use protogate.Multiplexer.{MuxFrame, serialize, deserialize}
use protogate.Wire.Integers.{get16_at, get32_at, length-put32}
use protogate.Wire.{Bytes, put16, put32, get16, get32, byte_at}

-- A frame's id and payload fit the fields of their lengths.
abbrev pub Fits : MuxFrame → Type 0
Fits f = (length f.connection_id < 2 ^ 16) × (length f.payload < 2 ^ 32)

-- The bytes of a frame.
abbrev pub frame_size : MuxFrame → ℕ
frame_size f = 7 + length f.connection_id + length f.payload

pub length-serialize : (f : MuxFrame) → length (serialize f) ≡ frame_size f
unfolding serialize put16 put32
length-serialize f =
    omega (arith, length-append f.connection_id (put32 (length f.payload % 2 ^ 32) ++ f.payload))

module _ (f : MuxFrame) (rest : Bytes) (fits : Fits f) where
  size_fits : length f.payload % 2 ^ 32 ≡ length f.payload
  size_fits = omega arith

  id_size_fits : length f.connection_id % 2 ^ 16 ≡ length f.connection_id
  id_size_fits = omega arith

  -- The bytes behind the type and the length of the id.
  id_part :
      drop 3 (serialize f ++ rest)
      ≡ f.connection_id ++ (put32 (length f.payload) ++ (f.payload ++ rest))
  unfolding serialize put16
  id_part = rw (append_assoc, append_assoc, size_fits) refl

  payload_part :
      drop (3 + length f.connection_id) (serialize f ++ rest)
      ≡ put32 (length f.payload) ++ (f.payload ++ rest)
  payload_part =
      rw (drop-add 3 (length f.connection_id) (serialize f ++ rest), id_part)
        (drop_append_len (length f.connection_id) f.connection_id
          (put32 (length f.payload) ++ (f.payload ++ rest)) refl)

  behind : drop (3 + length f.connection_id + 4) (serialize f ++ rest) ≡ f.payload ++ rest
  behind =
      rw (drop-add (3 + length f.connection_id) 4 (serialize f ++ rest), payload_part)
        (drop_append_len 4 (put32 (length f.payload)) (f.payload ++ rest)
          (length-put32 (length f.payload)))

  id_length : get16 (serialize f ++ rest) 1 ≡ length f.connection_id
  unfolding serialize put16
  id_length =
      get16_at 1 (serialize f ++ rest)
        (f.connection_id ++ (put32 (length f.payload % 2 ^ 32) ++ f.payload) ++ rest)
        (length f.connection_id) (rw id_size_fits refl) fits.0

  payload_length : get32 (serialize f ++ rest) (3 + length f.connection_id) ≡ length f.payload
  payload_length =
      get32_at (3 + length f.connection_id) (serialize f ++ rest) (f.payload ++ rest)
        (length f.payload) payload_part fits.1

  byte_at-serialize : byte_at (serialize f ++ rest) 0 ≡ f.type
  unfolding serialize
  byte_at-serialize = refl

  -- A frame whose id is below 2 ^ 16 bytes and whose payload is below 2 ^ 32 bytes is read back as it
  -- was, whatever stands behind it.
  pub deserialize-serialize_append : deserialize (serialize f ++ rest) ≡ ok f
  unfolding deserialize
  deserialize-serialize_append = ground (
    arith,
    id_length,
    payload_length,
    id_part,
    behind,
    byte_at-serialize,
    length-append (serialize f) rest,
    length-serialize f,
    take_append_len (length f.connection_id) f.connection_id
        (put32 (length f.payload) ++ (f.payload ++ rest)) refl,
    take_append_len (length f.payload) f.payload rest refl,
  )
