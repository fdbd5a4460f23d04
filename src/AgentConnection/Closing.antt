-- ===== src/AgentConnection/Closing.antt =====
-- Closing the agent's connection: no callback waits behind it.
use protogate.AgentConnection.Answers.{
  Event, started, shook_hands, heartbeat, wrote_frames, read_done, request, timed_out, tcp_send,
  tcp_close, closed, step, run, given_by, overwritten_by, run-Balanced,
}
use protogate.AgentConnection.Counting.{calls_of, calls_of-append, waits, close-Balanced}
use protogate.AgentConnection.Request.{read_request}
use protogate.AgentConnection.Sending.{
  note_request, send_http_request, on_timeout, send_tcp_data, send_tcp_close,
}
use protogate.AgentConnection.Session.{
  complete_request, Frame, ping_frame, headers_frame, data_frame, goaway_frame, other_frame,
  on_frame_recv, SessionCall, header_call, chunk_call, frame_call, session_call, session_calls,
  after_read, on_read, on_header, on_data_chunk_recv,
}
use protogate.AgentConnection.{
  State, connecting, authenticating, connected, disconnecting, disconnected, AgentConnection, key,
  handle_disconnect, close, send_pending_data, start_session, start, on_handshake, on_heartbeat,
  is_closed_state, is_connected_state, send_callback, would_block, write_failed, wrote,
  update_stats,
}
use protogate.Base.{
  ℕ, ◌+◌, ◌%◌, ◌^◌, ◌≡◌, refl, Bool, true, false, false≢true, Bool-cases, List, [], ◌∷◌, ◌++◌,
  arith, Option, none, some, Option-cases, inl, inr, Text, find, erase, length, ap,
}
use protogate.Wire.{Bytes}

-- A closed connection has nothing waiting.
abbrev pub IsSettled : AgentConnection → Type 0
IsSettled c = is_closed_state c.state ≡ true → c.pending_requests ≡ []

connected_open : (s : State) → is_connected_state s ≡ true → is_closed_state s ≡ false
connected_open connecting up = refl
connected_open authenticating up = refl
connected_open connected up = refl
connected_open disconnecting up = absurd (false≢true up)
connected_open disconnected up = absurd (false≢true up)

close-IsSettled : (c : AgentConnection) → IsSettled c → IsSettled (close c).1
unfolding close handle_disconnect
close-IsSettled c settled shut = elim (Bool-cases (is_closed_state c.state)) [
  | inl before ↦ ground (arith, before, settled before)
  | inr before ↦ ground (arith, before)
]

send_pending-IsSettled :
    (ok : Bool) (c : AgentConnection) → IsSettled c → IsSettled (send_pending_data ok c).1
unfolding send_pending_data
send_pending-IsSettled true c settled = settled
send_pending-IsSettled (false) c settled = close-IsSettled c settled

start_session-IsSettled :
    (now : ℕ) (ok : Bool) (c : AgentConnection) → IsSettled c → IsSettled (start_session now ok c).1
unfolding start_session
start_session-IsSettled now ok c settled =
    send_pending-IsSettled ok (record c { has_session = true }) settled

start-IsSettled :
    (now : ℕ) (ok : Bool) (c : AgentConnection) → IsSettled c → IsSettled (start now ok c).1
unfolding start
start-IsSettled now ok c settled shut =
    ground (
      arith,
      settled,
      start_session-IsSettled now ok (record c { has_on_disconnect = true }) settled,
    )

on_handshake-IsSettled :
    (now : ℕ) (failed ok : Bool) (c : AgentConnection)
    → IsSettled c
    → IsSettled (on_handshake now failed ok c).1
unfolding on_handshake handle_disconnect
on_handshake-IsSettled now true ok c settled = λ shut. refl
on_handshake-IsSettled now (false) ok c settled =
    start_session-IsSettled now ok (record c { state = connected })
      (λ shut. absurd (false≢true shut))

on_heartbeat-IsSettled :
    (now : ℕ) (ok : Bool) (c : AgentConnection) → IsSettled c → IsSettled (on_heartbeat now ok c).1
unfolding on_heartbeat
on_heartbeat-IsSettled now ok c settled shut =
    ground (arith, settled, close-IsSettled c settled, send_pending-IsSettled ok c settled)

complete-IsSettled :
    (stream_id : ℕ) (c : AgentConnection) → IsSettled c → IsSettled (complete_request stream_id c).1
unfolding complete_request erase
complete-IsSettled stream_id c settled shut =
    elim (Option-cases (find (key stream_id) c.stream_to_request)) [
      | inl gone ↦ ground (arith, gone, settled)
      | inr (request_id, known) ↦ elim (Option-cases (find request_id c.pending_requests)) [
        | inl gone ↦ ground (arith, known, gone, settled)
        | inr (callback, waiting) ↦ ground (arith, known, waiting, settled)
      ]
    ]

frame-IsSettled :
    (now : ℕ) (frame : Frame) (c : AgentConnection)
    → IsSettled c
    → IsSettled (on_frame_recv now frame c).1
unfolding on_frame_recv
frame-IsSettled now (ping_frame ack) c settled = λ shut. ground (arith, settled)
frame-IsSettled now (headers_frame is_response end_stream stream_id) c settled =
    λ shut. ground (arith, settled, complete-IsSettled stream_id c settled)
frame-IsSettled now (data_frame end_stream stream_id) c settled =
    λ shut. ground (arith, settled, complete-IsSettled stream_id c settled)
frame-IsSettled now goaway_frame c settled = close-IsSettled c settled
frame-IsSettled now other_frame c settled = settled

call-IsSettled :
    (now : ℕ) (call : SessionCall) (c : AgentConnection)
    → IsSettled c
    → IsSettled (session_call now call c).1
unfolding session_call on_header on_data_chunk_recv
call-IsSettled now (header_call stream_id name value) c settled = λ shut. ground (arith, settled)
call-IsSettled now (chunk_call stream_id chunk) c settled = settled
call-IsSettled now (frame_call frame) c settled = frame-IsSettled now frame c settled

calls-IsSettled :
    (now : ℕ) (calls : List SessionCall) (c : AgentConnection)
    → IsSettled c
    → IsSettled (session_calls now calls c).1
unfolding session_calls
calls-IsSettled now [] c settled = settled
calls-IsSettled now (call ∷ calls) c settled =
    calls-IsSettled now calls (session_call now call c).1 (call-IsSettled now call c settled)

after_read-IsSettled :
    (send_ok : Bool) (c : AgentConnection) → IsSettled c → IsSettled (after_read send_ok c).1
unfolding after_read
after_read-IsSettled true c settled = settled
after_read-IsSettled (false) c settled = close-IsSettled c settled

on_read-IsSettled :
    (now : ℕ) (outcome : Option Bytes) (calls : List SessionCall) (accepted send_ok : Bool)
    (c : AgentConnection)
    → IsSettled c
    → IsSettled (on_read now outcome calls accepted send_ok c).1
unfolding on_read
on_read-IsSettled now none calls accepted send_ok c settled = close-IsSettled c settled
on_read-IsSettled now (some bytes) calls true send_ok c settled =
    let c' = record c { bytes_received = (c.bytes_received + length bytes) % 2 ^ 64 } in
    λ shut. ground (
      arith,
      settled,
      after_read-IsSettled send_ok c' settled,
      after_read-IsSettled send_ok (session_calls now calls c').1
          (calls-IsSettled now calls c' settled),
    )
on_read-IsSettled now (some bytes) calls (false) send_ok c settled =
    let c' = record c { bytes_received = (c.bytes_received + length bytes) % 2 ^ 64 } in
    λ shut. ground (
      arith,
      settled,
      after_read-IsSettled send_ok c' settled,
      close-IsSettled (session_calls now calls c').1 (calls-IsSettled now calls c' settled),
    )

request-IsSettled :
    (request_id http_request : Text) (callback : ℕ) (submitted : Option ℕ) (send_ok : Bool)
    (c : AgentConnection)
    → IsSettled c
    → IsSettled (send_http_request request_id http_request callback submitted send_ok c).1
unfolding send_http_request
request-IsSettled request_id http_request callback none send_ok c settled =
    λ shut. ground (arith, settled)
request-IsSettled request_id http_request callback (some stream_id) send_ok c settled =
    let noted = note_request request_id callback stream_id (read_request http_request).body c in
    elim (Bool-cases (is_connected_state c.state)) [
      | inr down ↦ λ shut. ground (arith, settled, down)
      | inl up ↦ λ shut. ground (
        arith,
        settled,
        up,
        send_pending-IsSettled send_ok noted
            (λ before. absurd (ground (arith, before, connected_open c.state up))),
      )
    ]

timeout-IsSettled :
    (request_id : Text) (stream_id : ℕ) (c : AgentConnection)
    → IsSettled c
    → IsSettled (on_timeout request_id stream_id c).1
unfolding on_timeout erase find
timeout-IsSettled request_id stream_id c settled = λ shut. ground (arith, settled)

-- No call and no completion leaves a callback waiting on a closed connection, if it finds none there.
pub step-IsSettled : (e : Event) (c : AgentConnection) → IsSettled c → IsSettled (step e c).1
unfolding step send_callback send_tcp_close send_tcp_data update_stats
step-IsSettled (started now ok) c settled = start-IsSettled now ok c settled
step-IsSettled (shook_hands now failed ok) c settled =
    on_handshake-IsSettled now failed ok c settled
step-IsSettled (heartbeat now ok) c settled = on_heartbeat-IsSettled now ok c settled
step-IsSettled (wrote_frames would_block) c settled = settled
step-IsSettled (wrote_frames write_failed) c settled = settled
step-IsSettled (wrote_frames (wrote n)) c settled = settled
step-IsSettled (read_done now outcome calls accepted send_ok) c settled =
    on_read-IsSettled now outcome calls accepted send_ok c settled
step-IsSettled (request request_id http_request callback submitted send_ok) c settled =
    request-IsSettled request_id http_request callback submitted send_ok c settled
step-IsSettled (timed_out request_id stream_id) c settled =
    timeout-IsSettled request_id stream_id c settled
step-IsSettled (tcp_send now data_bytes callback written) c settled =
    λ shut. ground (arith, settled)
step-IsSettled (tcp_close connection_id) c settled = λ shut. ground (arith, settled)
step-IsSettled closed c settled = close-IsSettled c settled

pub run-IsSettled : (es : List Event) (c : AgentConnection) → IsSettled c → IsSettled (run es c).1
unfolding run
run-IsSettled [] c settled = settled
run-IsSettled (e ∷ es) c settled = run-IsSettled es (step e c).1 (step-IsSettled e c settled)

-- Whatever has happened before, nothing waits once `close` returns.
close-empties : (c : AgentConnection) → IsSettled c → (close c).1.pending_requests ≡ []
unfolding close handle_disconnect
close-empties c settled = elim (Bool-cases (is_closed_state c.state)) [
  | inl before ↦ ground (arith, before, settled before)
  | inr before ↦ ground (arith, before)
]

-- If nothing waited at the start, then after any sequence of calls and completions, and `close`, each
-- callback has been called as often as it was given, less the times that a later request with the same
-- id took its place.
pub run-close-answers :
    (k : ℕ) (es : List Event) (c : AgentConnection)
    → c.pending_requests ≡ []
    → calls_of k ((run es c).0 ++ (close (run es c).1).0) + overwritten_by k es c ≡ given_by k es
unfolding waits
run-close-answers k es c idle = omega (
  arith,
  ap (waits k) idle,
  run-Balanced k es c,
  close-Balanced k (run es c).1,
  calls_of-append k (run es c).0 (close (run es c).1).0,
  ap (waits k) (close-empties (run es c).1 (run-IsSettled es c (λ shut. idle))),
)
