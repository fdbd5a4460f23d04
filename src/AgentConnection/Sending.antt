-- ===== src/AgentConnection/Sending.antt =====
-- src/agent/agent_connection.cpp: requests, and their timeouts, and the frames of TCP connections that
-- the server sends past nghttp2.
use protogate.AgentConnection.Request.{read_request, header_pairs}
use protogate.AgentConnection.{
  AgentConnection, answer, submit_headers, submit_data, submit_end, set_timer, write, Handled,
  then_do, is_connected_state, send_pending_data, update_stats, key,
}
use protogate.Base.{
  ℕ, ◌-◌, Bool, true, false, not, ◌||◌, [], ◌∷◌, ◌++◌, Option, none, some, length, take, replicate,
  ◌==◌, if◌then◌else◌, Text, find, insert, erase,
}
use protogate.Wire.{Bytes}

-- The callback and the stream are noted after nghttp2 has taken the request.
abbrev pub note_request : Text → ℕ → ℕ → Text → AgentConnection → AgentConnection
note_request request_id callback stream_id body c = record c {
  pending_requests = insert request_id callback c.pending_requests;
  stream_to_request = insert (key stream_id) request_id c.stream_to_request;
  stream_bodies =
      if length body == 0 then c.stream_bodies else insert request_id body c.stream_bodies;
}

-- `submitted` is the stream that `nghttp2_submit_headers` gives, if it gives one. An error of
-- `nghttp2_submit_data` is logged only.
unfoldable pub send_http_request : Text → Text → ℕ → Option ℕ → Bool → AgentConnection → Handled
send_http_request request_id http_request callback submitted send_ok c =
    let r = read_request http_request in
    let end_stream = length r.body == 0 in
    let headers = submit_headers (header_pairs request_id r) end_stream in
    if not (is_connected_state c.state) || not c.has_session
    then (answer callback [] true ∷ [], c)
    else elim submitted [
      | none ↦ (headers ∷ answer callback [] true ∷ [], c)
      | some stream_id ↦
          then_do
            (then_do
              (
                headers
                    ∷ (if end_stream then submit_end stream_id else submit_data stream_id r.body)
                    ∷ [],
                note_request request_id callback stream_id r.body c,
              )
              (send_pending_data send_ok))
            (λ c'. (set_timer request_id stream_id ∷ [], c'))
    ]

-- The request's timer.
unfoldable pub on_timeout : Text → ℕ → AgentConnection → Handled
on_timeout request_id stream_id c = elim (find request_id c.pending_requests) [
  | none ↦ ([], c)
  | some callback ↦ (
    answer callback [] true ∷ [],
    record c {
      pending_requests = erase request_id c.pending_requests;
      stream_to_request = erase (key stream_id) c.stream_to_request;
      stream_bodies = erase request_id c.stream_bodies;
    },
  )
]

-- `written` is what `write_some` writes, unless it fails: it may be less than the data.
unfoldable pub send_tcp_data : ℕ → Bytes → ℕ → Option ℕ → AgentConnection → Handled
send_tcp_data now data_bytes callback written c =
    if not (is_connected_state c.state) then (answer callback [] true ∷ [], c) else elim written [
      | none ↦ (answer callback [] true ∷ [], c)
      | some n ↦
          (write (take n data_bytes) ∷ answer callback [] (false) ∷ [], update_stats now n 0 c)
    ]

-- The frame has the first 16 characters of the id's text, with zeros behind a shorter one.
unfoldable pub close_frame : Text → Bytes
close_frame connection_id =
    let front = take 16 connection_id in
    18 ∷ (front ++ (replicate (16 - length front) 0 ++ (0 ∷ 0 ∷ [])))

unfoldable pub send_tcp_close : Text → AgentConnection → Handled
send_tcp_close connection_id c =
    if is_connected_state c.state then (write (close_frame connection_id) ∷ [], c) else ([], c)
