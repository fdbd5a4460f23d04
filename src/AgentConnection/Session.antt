-- ===== src/AgentConnection/Session.antt =====
-- src/agent/agent_connection.cpp: the callbacks of nghttp2, and the completion of a read.
use protogate.AgentConnection.{
  AgentConnection, answer, tcp_frame, read, Handled, then_do, close, key,
}
use protogate.Base.{
  ℕ, ◌+◌, ◌%◌, ◌^◌, Bool, false, ◌&&◌, List, [], ◌∷◌, ◌++◌, Option, none, some, length, leb, ◌==◌,
  get_or, if◌then◌else◌, Text, text_eq, Map, find, insert, erase, codes,
}
use protogate.Wire.{Bytes, byte_at}

abbrev pub found_or_empty : Text → Map Text → Text
found_or_empty k m = elim (find k m) [ none ↦ [] | some t ↦ t ]

-- The status line says OK for every status.
unfoldable pub on_header : ℕ → Text → Text → AgentConnection → AgentConnection
on_header stream_id name value c =
    if text_eq name (codes ":status")
    then elim (find (key stream_id) c.stream_headers) [
      | none ↦ record c {
        stream_headers =
            insert (key stream_id) (codes "HTTP/1.1 " ++ (value ++ (codes " OK" ++ (13 ∷ 10 ∷ []))))
              c.stream_headers;
      }
      | some headers ↦ c
    ]
    else if get_or name 0 0 == 58
    then c
    else record c {
      stream_headers =
          insert (key stream_id)
            (found_or_empty (key stream_id) c.stream_headers
              ++ (name ++ (codes ": " ++ (value ++ (13 ∷ 10 ∷ [])))))
            c.stream_headers;
    }

unfoldable pub on_data_chunk_recv : ℕ → Text → AgentConnection → AgentConnection
on_data_chunk_recv stream_id chunk c = record c {
  stream_bodies_recv =
      insert (key stream_id) (found_or_empty (key stream_id) c.stream_bodies_recv ++ chunk)
        c.stream_bodies_recv;
}

-- The headers, a blank line if there are any, and the body.
unfoldable pub response_of : ℕ → AgentConnection → Text
response_of stream_id c =
    let headers = found_or_empty (key stream_id) c.stream_headers in
    (if length headers == 0 then [] else headers ++ (13 ∷ 10 ∷ []))
    ++ found_or_empty (key stream_id) c.stream_bodies_recv

unfoldable pub complete_request : ℕ → AgentConnection → Handled
complete_request stream_id c = elim (find (key stream_id) c.stream_to_request) [
  | none ↦ ([], c)
  | some request_id ↦ elim (find request_id c.pending_requests) [
    | none ↦ ([], c)
    | some callback ↦ (
      answer callback (response_of stream_id c) (false) ∷ [],
      record c {
        pending_requests = erase request_id c.pending_requests;
        stream_to_request = erase (key stream_id) c.stream_to_request;
        stream_headers = erase (key stream_id) c.stream_headers;
        stream_bodies_recv = erase (key stream_id) c.stream_bodies_recv;
        stream_bodies = erase request_id c.stream_bodies;
      },
    )
  ]
]

-- The frames that `on_frame_recv_callback` tells apart, with the flags it reads: of a PING whether it
-- is an acknowledgement, of HEADERS whether they are a response, and of HEADERS and DATA whether they
-- end the stream.
pub data Frame : Type 0 where
  ping_frame : Bool → Frame
  headers_frame : Bool → Bool → ℕ → Frame
  data_frame : Bool → ℕ → Frame
  goaway_frame other_frame : Frame

unfoldable pub on_frame_recv : ℕ → Frame → AgentConnection → Handled
on_frame_recv now (ping_frame ack) c = ([], if ack then record c { last_heartbeat = now } else c)
on_frame_recv now (headers_frame is_response end_stream stream_id) c =
    if is_response && end_stream then complete_request stream_id c else ([], c)
on_frame_recv now (data_frame end_stream stream_id) c =
    if end_stream then complete_request stream_id c else ([], c)
on_frame_recv now goaway_frame c = close c
on_frame_recv now other_frame c = ([], c)

-- What nghttp2 calls while it reads.
pub data SessionCall : Type 0 where
  header_call : ℕ → Text → Text → SessionCall
  chunk_call : ℕ → Text → SessionCall
  frame_call : Frame → SessionCall

unfoldable pub session_call : ℕ → SessionCall → AgentConnection → Handled
session_call now (header_call stream_id name value) c = ([], on_header stream_id name value c)
session_call now (chunk_call stream_id chunk) c = ([], on_data_chunk_recv stream_id chunk c)
session_call now (frame_call frame) c = on_frame_recv now frame c

unfoldable pub session_calls : ℕ → List SessionCall → AgentConnection → Handled
session_calls now [] c = ([], c)
session_calls now (call ∷ calls) c = then_do (session_call now call c) (session_calls now calls)

-- After what was read: `nghttp2_session_send`, and the next read.
unfoldable pub after_read : Bool → AgentConnection → Handled
after_read send_ok c = if send_ok then (read ∷ [], c) else close c

-- The completion of a read: an error, or bytes. A read that begins with a TCP frame's type is for the
-- frame handler as a whole; any other goes to nghttp2, which makes the calls and accepts it or not.
unfoldable pub on_read :
    ℕ → Option Bytes → List SessionCall → Bool → Bool → AgentConnection → Handled
on_read now none calls accepted send_ok c = close c
on_read now (some bytes) calls accepted send_ok c =
    let c' = record c { bytes_received = (c.bytes_received + length bytes) % 2 ^ 64 } in
    let is_frame = leb 1 (length bytes) && leb 16 (byte_at bytes 0) && leb (byte_at bytes 0) 20 in
    if is_frame
    then then_do (if c.has_tcp_frame_handler then tcp_frame bytes ∷ [] else [], c')
        (after_read send_ok)
    else if length bytes == 0
    then after_read send_ok c'
    else then_do (session_calls now calls c') (if accepted then after_read send_ok else close)
