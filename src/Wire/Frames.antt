-- ===== src/Wire/Frames.antt =====
-- The five frame structs of src/proxy/tcp_protocol.h, with `serialize` and `deserialize`.
use protogate.Base.{
  ℕ, ◌+◌, ◌%◌, ◌^◌, ◌∷◌, ◌++◌, length, take, drop, not, ltb, ◌==◌, Result, ok, ◌>>=◌, ◌>>◌,
  throw_if,
}
use protogate.Wire.{
  Bytes, TcpFrameType, tcp_open, tcp_data, tcp_close, tcp_error, tcp_ack, TcpCloseReason,
  TcpErrorCode, ByteOrder, WireError, buffer_too_small, invalid_frame_type, incomplete_data,
  incomplete_message, out_of_bounds, put16, put32, byte_at, get16, get32,
}

pub record TcpOpenFrame : Type 0 where
  pub type : TcpFrameType
  pub connection_id : Bytes
  pub target_port : ℕ

pub record TcpDataFrame : Type 0 where
  pub type : TcpFrameType
  pub connection_id : Bytes
  pub sequence_number : ℕ
  pub payload : Bytes

pub record TcpCloseFrame : Type 0 where
  pub type : TcpFrameType
  pub connection_id : Bytes
  pub reason : TcpCloseReason

pub record TcpErrorFrame : Type 0 where
  pub type : TcpFrameType
  pub connection_id : Bytes
  pub error_code : TcpErrorCode
  pub message : Bytes

pub record TcpAckFrame : Type 0 where
  pub type : TcpFrameType
  pub connection_id : Bytes
  pub ack_sequence_number : ℕ
  pub window_size : ℕ

-- The two guards that every `deserialize` begins with.
check_header : ℕ → TcpFrameType → Bytes → Result WireError (Unit {0})
check_header size type buffer = do
  throw_if (ltb (length buffer) size) buffer_too_small
  throw_if (not (byte_at buffer 0 == type)) invalid_frame_type

-- `std::copy(data + 1, data + 17, connection_id.begin())`
abbrev read_id : Bytes → Bytes
read_id buffer = take 16 (drop 1 buffer)

-- `[data + from, data + from + count)`: a range that leaves the buffer is no read that C++ defines.
read_range : Bytes → ℕ → ℕ → Result WireError Bytes
read_range buffer from count = do
  throw_if (ltb (length buffer) (from + count)) out_of_bounds
  ok (take count (drop from buffer))

module _ (order : ByteOrder) where
  open order use {hton16, ntoh16, hton32, ntoh32}

  unfoldable pub serialize_open : TcpOpenFrame → Bytes
  serialize_open f = f.type ∷ (f.connection_id ++ put16 (hton16 f.target_port))

  unfoldable pub deserialize_open : Bytes → Result WireError TcpOpenFrame
  unfolding check_header
  deserialize_open buffer = do
    check_header 19 tcp_open buffer
    ok (record {
      type = byte_at buffer 0;
      connection_id = read_id buffer;
      target_port = ntoh16 (get16 buffer 17);
    })

  unfoldable pub serialize_close : TcpCloseFrame → Bytes
  serialize_close f = f.type ∷ (f.connection_id ++ put16 (hton16 f.reason))

  unfoldable pub deserialize_close : Bytes → Result WireError TcpCloseFrame
  unfolding check_header
  deserialize_close buffer = do
    check_header 19 tcp_close buffer
    ok (record {
      type = byte_at buffer 0;
      connection_id = read_id buffer;
      reason = ntoh16 (get16 buffer 17);
    })

  -- The length field is `static_cast<uint16_t>(message.size())`.
  unfoldable pub serialize_error : TcpErrorFrame → Bytes
  serialize_error f =
      f.type
      ∷ (f.connection_id
          ++ (put16 (hton16 f.error_code)
              ++ (put16 (hton16 (length f.message % 2 ^ 16)) ++ f.message)))

  unfoldable pub deserialize_error : Bytes → Result WireError TcpErrorFrame
  unfolding check_header read_range
  deserialize_error buffer = do
    check_header 21 tcp_error buffer
    let msg_length = ntoh16 (get16 buffer 19)
    throw_if (ltb (length buffer) (21 + msg_length)) incomplete_message
    message ← read_range buffer 21 msg_length
    ok (record {
      type = byte_at buffer 0;
      connection_id = read_id buffer;
      error_code = ntoh16 (get16 buffer 17);
      message = message;
    })

  unfoldable pub serialize_ack : TcpAckFrame → Bytes
  serialize_ack f =
      f.type
      ∷ (f.connection_id ++ (put32 (hton32 f.ack_sequence_number) ++ put32 (hton32 f.window_size)))

  unfoldable pub deserialize_ack : Bytes → Result WireError TcpAckFrame
  unfolding check_header
  deserialize_ack buffer = do
    check_header 25 tcp_ack buffer
    ok (record {
      type = byte_at buffer 0;
      connection_id = read_id buffer;
      ack_sequence_number = ntoh32 (get32 buffer 17);
      window_size = ntoh32 (get32 buffer 21);
    })

  -- The length check adds 25 to a `uint32_t`, so its sum wraps.
  unfoldable pub deserialize_data : Bytes → Result WireError TcpDataFrame
  unfolding check_header read_range
  deserialize_data buffer = do
    check_header 25 tcp_data buffer
    let data_length = ntoh32 (get32 buffer 21)
    throw_if (ltb (length buffer) ((25 + data_length) % 2 ^ 32)) incomplete_data
    payload ← read_range buffer 25 data_length
    ok (record {
      type = byte_at buffer 0;
      connection_id = read_id buffer;
      sequence_number = ntoh32 (get32 buffer 17);
      payload = payload;
    })

-- `serialize` of a data frame shifts the numbers themselves, with no conversion before.
unfoldable pub serialize_data : TcpDataFrame → Bytes
serialize_data f =
    f.type
    ∷ (f.connection_id
        ++ (put32 f.sequence_number ++ (put32 (length f.payload % 2 ^ 32) ++ f.payload)))

-- `get_frame_type`
unfoldable pub get_frame_type : Bytes → Result WireError TcpFrameType
get_frame_type buffer = do throw_if (ltb (length buffer) 1) buffer_too_small; ok (byte_at buffer 0)
