-- ===== src/Wire/RoundTrip.antt =====
-- What a frame's `deserialize` makes of the bytes that its `serialize` wrote, on any platform.
use protogate.Base.{
  ℕ, ◌<◌, ◌^◌, ◌%◌, ◌≡◌, [], ◌∷◌, ◌++◌, arith, length, drop, ok, length-append, take_append_len,
  take_all, append-nil,
}
use protogate.Wire.Frames.{
  TcpOpenFrame, serialize_open, deserialize_open, TcpCloseFrame, serialize_close, deserialize_close,
  TcpErrorFrame, serialize_error, deserialize_error, TcpAckFrame, serialize_ack, deserialize_ack,
}
use protogate.Wire.Integers.{get16_at, get32_at, length-put16, length-put32, drop_header}
use protogate.Wire.{
  Byte, Bytes, tcp_open, tcp_close, tcp_error, tcp_ack, ByteOrder, put16, put32, get16, get32,
}

-- The offsets of the fields behind a 16-byte id.
module _ (t : Byte) (id : Bytes) (hid : length id ≡ 16) where
  pub drop_17 : (rest : Bytes) → drop 17 (t ∷ (id ++ rest)) ≡ rest
  drop_17 rest = drop_header t id [] rest 16 (omega arith)

  pub drop_19 : (v : ℕ) (rest : Bytes) → drop 19 (t ∷ (id ++ (put16 v ++ rest))) ≡ rest
  drop_19 v rest = drop_header t id (put16 v) rest 18 (omega (arith, length-put16 v))

  pub drop_21 : (v : ℕ) (rest : Bytes) → drop 21 (t ∷ (id ++ (put32 v ++ rest))) ≡ rest
  drop_21 v rest = drop_header t id (put32 v) rest 20 (omega (arith, length-put32 v))

  pub drop_two16 :
      (v w : ℕ) (rest : Bytes) → drop 21 (t ∷ (id ++ (put16 v ++ (put16 w ++ rest)))) ≡ rest
  unfolding put16
  drop_two16 v w rest = drop_header t id (put16 v ++ put16 w) rest 20 (omega arith)

  pub drop_two32 :
      (v w : ℕ) (rest : Bytes) → drop 25 (t ∷ (id ++ (put32 v ++ (put32 w ++ rest)))) ≡ rest
  unfolding put32
  drop_two32 v w rest = drop_header t id (put32 v ++ put32 w) rest 24 (omega arith)

module _ (order : ByteOrder) where
  open order use {
    hton16, ntoh16, hton32, ntoh32, ntoh16-hton16, ntoh32-hton32, hton16_lt, hton32_lt,
  }

  -- A converted integer comes back where it was written.
  ntoh16_at :
      (k : ℕ) (b rest : Bytes) (v : ℕ)
      → drop k b ≡ put16 (hton16 v) ++ rest
      → v < 2 ^ 16
      → ntoh16 (get16 b k) ≡ v
  ntoh16_at k b rest v e h = rw (get16_at k b rest (hton16 v) e (hton16_lt v h)) (ntoh16-hton16 v h)

  ntoh32_at :
      (k : ℕ) (b rest : Bytes) (v : ℕ)
      → drop k b ≡ put32 (hton32 v) ++ rest
      → v < 2 ^ 32
      → ntoh32 (get32 b k) ≡ v
  ntoh32_at k b rest v e h = rw (get32_at k b rest (hton32 v) e (hton32_lt v h)) (ntoh32-hton32 v h)

  -- A lone 16-bit field at the end.
  ntoh16_last :
      (t : Byte) (id : Bytes) (v : ℕ)
      → length id ≡ 16
      → v < 2 ^ 16
      → ntoh16 (get16 (t ∷ (id ++ put16 (hton16 v))) 17) ≡ v
  ntoh16_last t id v hid h =
      ntoh16_at 17 (t ∷ (id ++ put16 (hton16 v))) [] v
        (rw append-nil (drop_17 t id hid (put16 (hton16 v)))) h

  -- An open frame with a 16-byte id and a 16-bit port is read back as it was.
  pub deserialize-serialize_open :
      (f : TcpOpenFrame)
      → f.type ≡ tcp_open
      → length f.connection_id ≡ 16
      → f.target_port < 2 ^ 16
      → deserialize_open order (serialize_open order f) ≡ ok f
  unfolding deserialize_open serialize_open
  deserialize-serialize_open f ht hid hp = ground (
    arith,
    length-append f.connection_id (put16 (hton16 f.target_port)),
    length-put16 (hton16 f.target_port),
    take_append_len 16 f.connection_id (put16 (hton16 f.target_port)) hid,
    ntoh16_last f.type f.connection_id f.target_port hid hp,
  )

  -- A close frame with a 16-byte id and a 16-bit reason is read back as it was.
  pub deserialize-serialize_close :
      (f : TcpCloseFrame)
      → f.type ≡ tcp_close
      → length f.connection_id ≡ 16
      → f.reason < 2 ^ 16
      → deserialize_close order (serialize_close order f) ≡ ok f
  unfolding deserialize_close serialize_close
  deserialize-serialize_close f ht hid hp = ground (
    arith,
    length-append f.connection_id (put16 (hton16 f.reason)),
    length-put16 (hton16 f.reason),
    take_append_len 16 f.connection_id (put16 (hton16 f.reason)) hid,
    ntoh16_last f.type f.connection_id f.reason hid hp,
  )

  -- An acknowledgement with a 16-byte id and 32-bit numbers is read back as it was.
  pub deserialize-serialize_ack :
      (f : TcpAckFrame)
      → f.type ≡ tcp_ack
      → length f.connection_id ≡ 16
      → f.ack_sequence_number < 2 ^ 32
      → f.window_size < 2 ^ 32
      → deserialize_ack order (serialize_ack order f) ≡ ok f
  unfolding deserialize_ack serialize_ack
  deserialize-serialize_ack f ht hid ha hw =
      let window = put32 (hton32 f.window_size) in
      let ack = put32 (hton32 f.ack_sequence_number) in
      ground (
        arith,
        length-append f.connection_id (ack ++ window),
        length-append ack window,
        length-put32 (hton32 f.window_size),
        length-put32 (hton32 f.ack_sequence_number),
        take_append_len 16 f.connection_id (ack ++ window) hid,
        ntoh32_at 17 (serialize_ack order f) window f.ack_sequence_number
            (drop_17 f.type f.connection_id hid (ack ++ window)) ha,
        ntoh32_at 21 (serialize_ack order f) [] f.window_size
            (rw append-nil
              (drop_21 f.type f.connection_id hid (hton32 f.ack_sequence_number) window))
            hw,
      )

  -- An error frame with a 16-byte id, a 16-bit code and a message below 2 ^ 16 bytes is read back
  -- as it was.
  pub deserialize-serialize_error :
      (f : TcpErrorFrame)
      → f.type ≡ tcp_error
      → length f.connection_id ≡ 16
      → f.error_code < 2 ^ 16
      → length f.message < 2 ^ 16
      → deserialize_error order (serialize_error order f) ≡ ok f
  unfolding deserialize_error serialize_error
  deserialize-serialize_error f ht hid hc hm =
      let code = put16 (hton16 f.error_code) in
      let size = put16 (hton16 (length f.message % 2 ^ 16)) in
      ground (
        arith,
        length-append f.connection_id (code ++ (size ++ f.message)),
        length-append code (size ++ f.message),
        length-append size f.message,
        length-put16 (hton16 f.error_code),
        length-put16 (hton16 (length f.message % 2 ^ 16)),
        take_append_len 16 f.connection_id (code ++ (size ++ f.message)) hid,
        take_all (length f.message) f.message (omega arith),
        ntoh16_at 17 (serialize_error order f) (size ++ f.message) f.error_code
            (drop_17 f.type f.connection_id hid (code ++ (size ++ f.message))) hc,
        ntoh16_at 19 (serialize_error order f) f.message (length f.message % 2 ^ 16)
            (drop_19 f.type f.connection_id hid (hton16 f.error_code) (size ++ f.message))
            (omega arith),
        drop_two16 f.type f.connection_id hid (hton16 f.error_code)
            (hton16 (length f.message % 2 ^ 16)) f.message,
      )
