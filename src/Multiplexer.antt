-- ===== src/Multiplexer.antt =====
-- src/proxy/protocol_multiplexer.h and .cpp: the frames for TCP connections that share one stream,
-- the buffer they are queued in, and the callbacks. The HTTP/2 half of the class is a stub in the
-- source: what it leaves to nghttp2 does nothing but return, and so it does here.
--
-- A string is the list of its bytes. The type of a frame is any byte.
pub mod RoundTrip
pub mod Output
pub mod Examples
use protogate.Base.{
  Bool, true, false, ℕ, ◌+◌, ◌%◌, ◌^◌, List, [], ◌∷◌, ◌++◌, length, take, drop, ltb, not, ◌==◌,
  if◌then◌else◌, Option, none, some, Result, ok, ◌>>=◌, ◌>>◌, throw_if,
}
use protogate.Wire.{Byte, Bytes, put16, put32, byte_at, get16, get32}

abbrev pub FrameType : Type 0
FrameType = ℕ

abbrev pub type_data : FrameType
type_data = 0x01

abbrev pub type_close : FrameType
type_close = 0x02

abbrev pub type_error : FrameType
type_error = 0x03

abbrev pub type_window : FrameType
type_window = 0x04

-- `struct TCPFrame`
pub record MuxFrame : Type 0 where
  pub type : FrameType
  pub connection_id : Bytes
  pub payload : Bytes

pub data MuxError : Type 0 where
  too_short : MuxError
  truncated_connection_id : MuxError
  truncated_payload : MuxError

-- Both lengths are cast to the width of their field.
unfoldable pub serialize : MuxFrame → Bytes
serialize f =
    f.type
    ∷ (put16 (length f.connection_id % 2 ^ 16)
        ++ (f.connection_id ++ (put32 (length f.payload % 2 ^ 32) ++ f.payload)))

unfoldable pub deserialize : Bytes → Result MuxError MuxFrame
deserialize buffer = do
  throw_if (ltb (length buffer) 7) too_short
  let id_length = get16 buffer 1
  throw_if (ltb (length buffer) (3 + id_length + 4)) truncated_connection_id
  let payload_length = get32 buffer (3 + id_length)
  throw_if (ltb (length buffer) (3 + id_length + 4 + payload_length)) truncated_payload
  ok (record {
    type = byte_at buffer 0;
    connection_id = take id_length (drop 3 buffer);
    payload = take payload_length (drop (3 + id_length + 4) buffer);
  })

-- The members that the methods use: what is to be written, and whether a callback is set.
pub record Multiplexer : Type 0 where
  pub output_buffer : Bytes
  pub has_header_callback : Bool
  pub has_data_callback : Bool

abbrev pub created : Multiplexer
created = record { output_buffer = []; has_header_callback = false; has_data_callback = false }

-- `output_buffer_.append(serialized)`, which every `send_tcp_...` ends with.
abbrev pub append_output : Bytes → Multiplexer → Multiplexer
append_output bytes m = record {
  output_buffer = m.output_buffer ++ bytes;
  has_header_callback = m.has_header_callback;
  has_data_callback = m.has_data_callback;
}

unfoldable pub send_tcp_data : Bytes → Bytes → Multiplexer → Multiplexer
send_tcp_data id bytes m =
    append_output (serialize (record { type = type_data; connection_id = id; payload = bytes })) m

unfoldable pub send_tcp_close : Bytes → Multiplexer → Multiplexer
send_tcp_close id m =
    append_output (serialize (record { type = type_close; connection_id = id; payload = [] })) m

unfoldable pub send_tcp_error : Bytes → Bytes → Multiplexer → Multiplexer
send_tcp_error id message m =
    append_output (serialize (record { type = type_error; connection_id = id; payload = message }))
      m

unfoldable pub send_tcp_window : Bytes → ℕ → Multiplexer → Multiplexer
send_tcp_window id window_size m =
    append_output
      (serialize (record { type = type_window; connection_id = id; payload = put32 window_size })) m

-- `send_callback`, which nghttp2 is to call with the bytes of its own frames.
unfoldable pub send_callback : Bytes → Multiplexer → Multiplexer
send_callback bytes m = append_output bytes m

-- The buffer is moved out and cleared.
unfoldable pub get_output_data : Multiplexer → Bytes × Multiplexer
get_output_data m = (
  m.output_buffer,
  record {
    output_buffer = [];
    has_header_callback = m.has_header_callback;
    has_data_callback = m.has_data_callback;
  },
)

unfoldable pub wants_write : Multiplexer → Bool
wants_write m = not (length m.output_buffer == 0)

unfoldable pub set_header_callback : Bool → Multiplexer → Multiplexer
set_header_callback callback m = record {
  output_buffer = m.output_buffer;
  has_header_callback = callback;
  has_data_callback = m.has_data_callback;
}

unfoldable pub set_data_callback : Bool → Multiplexer → Multiplexer
set_data_callback callback m = record {
  output_buffer = m.output_buffer;
  has_header_callback = m.has_header_callback;
  has_data_callback = callback;
}

-- What a callback is called with.
pub data Event : Type 0 where
  header_event : ℕ → Bytes → Bytes → Event
  data_event : ℕ → Bytes → Bool → Event

-- Bit 0 of the flags is END_STREAM.
unfoldable pub on_data_chunk_recv_callback : ℕ → ℕ → Bytes → Multiplexer → Option Event
on_data_chunk_recv_callback flags stream_id chunk m =
    if m.has_data_callback then some (data_event stream_id chunk (flags % 2 == 1)) else none

-- The stream is always 0.
unfoldable pub on_header_callback : Bytes → Bytes → Multiplexer → Option Event
on_header_callback name value m =
    if m.has_header_callback then some (header_event 0 name value) else none
