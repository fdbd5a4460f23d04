-- ===== src/AgentConnection/Answers.antt =====
-- Runs of the agent's connection, and what becomes of the callbacks.
use protogate.AgentConnection.Counting.{
  one, calls_of, calls_of-append, waits, waits_under, waits-insert, waits-erase, Balanced,
  close-Balanced, send_pending_data-Balanced, start-Balanced, on_handshake-Balanced,
  on_heartbeat-Balanced, on_read-Balanced,
}
use protogate.AgentConnection.Request.{read_request, header_pairs}
use protogate.AgentConnection.Sending.{
  note_request, send_http_request, on_timeout, send_tcp_data, send_tcp_close,
}
use protogate.AgentConnection.Session.{SessionCall, on_read}
use protogate.AgentConnection.{
  AgentConnection, submit_headers, submit_data, submit_end, set_timer, Handled, close,
  send_pending_data, start, on_handshake, on_heartbeat, send_callback, Written, would_block,
  write_failed, wrote, is_connected_state, update_stats,
}
use protogate.Base.{
  ℕ, ◌+◌, ◌≡◌, Bool, true, ◌&&◌, Bool-cases, List, [], ◌∷◌, ◌++◌, arith, Option, none, some, inl,
  inr, length, ◌==◌, if◌then◌else◌, Text,
}
use protogate.Wire.{Bytes}

-- A call of a method or a completion, with what nghttp2 and the socket return.
pub data Event : Type 0 where
  started : ℕ → Bool → Event
  shook_hands : ℕ → Bool → Bool → Event
  heartbeat : ℕ → Bool → Event
  wrote_frames : Written → Event
  read_done : ℕ → Option Bytes → List SessionCall → Bool → Bool → Event
  request : Text → Text → ℕ → Option ℕ → Bool → Event
  timed_out : Text → ℕ → Event
  tcp_send : ℕ → Bytes → ℕ → Option ℕ → Event
  tcp_close : Text → Event
  closed : Event

unfoldable pub step : Event → AgentConnection → Handled
step (started now ok) c = start now ok c
step (shook_hands now failed ok) c = on_handshake now failed ok c
step (heartbeat now ok) c = on_heartbeat now ok c
step (wrote_frames outcome) c = ([], send_callback outcome c)
step (read_done now outcome calls accepted send_ok) c = on_read now outcome calls accepted send_ok c
step (request request_id http_request callback submitted send_ok) c =
    send_http_request request_id http_request callback submitted send_ok c
step (timed_out request_id stream_id) c = on_timeout request_id stream_id c
step (tcp_send now data_bytes callback written) c = send_tcp_data now data_bytes callback written c
step (tcp_close connection_id) c = send_tcp_close connection_id c
step closed c = close c

unfoldable pub run : List Event → AgentConnection → Handled
run [] c = ([], c)
run (e ∷ es) c = let (out, c') = step e c in let (more, c'') = run es c' in (out ++ more, c'')

-- How often an event comes with the callback.
unfoldable pub given : ℕ → Event → ℕ
given k (request request_id http_request callback submitted send_ok) = one k callback
given k (tcp_send now data_bytes callback written) = one k callback
given k (started now ok) = 0
given k (shook_hands now failed ok) = 0
given k (heartbeat now ok) = 0
given k (wrote_frames outcome) = 0
given k (read_done now outcome calls accepted send_ok) = 0
given k (timed_out request_id stream_id) = 0
given k (tcp_close connection_id) = 0
given k closed = 0

-- A request that nghttp2 takes puts its callback in the place of one that waits under the same id.
unfoldable pub overwritten : ℕ → Event → AgentConnection → ℕ
overwritten k (request request_id http_request callback submitted send_ok) c =
    if is_connected_state c.state && c.has_session
    then elim submitted [ none ↦ 0 | some stream_id ↦ waits_under k request_id c.pending_requests ]
    else 0
overwritten k (tcp_send now data_bytes callback written) c = 0
overwritten k (started now ok) c = 0
overwritten k (shook_hands now failed ok) c = 0
overwritten k (heartbeat now ok) c = 0
overwritten k (wrote_frames outcome) c = 0
overwritten k (read_done now outcome calls accepted send_ok) c = 0
overwritten k (timed_out request_id stream_id) c = 0
overwritten k (tcp_close connection_id) c = 0
overwritten k closed c = 0

unfoldable pub given_by : ℕ → List Event → ℕ
given_by k [] = 0
given_by k (e ∷ es) = given k e + given_by k es

unfoldable pub overwritten_by : ℕ → List Event → AgentConnection → ℕ
overwritten_by k [] c = 0
overwritten_by k (e ∷ es) c = overwritten k e c + overwritten_by k es (step e c).1

module _ (k : ℕ) where
  -- A request that nghttp2 takes.
  taken-Balanced :
      (request_id http_request : Text) (callback stream_id : ℕ) (send_ok : Bool)
      (c : AgentConnection)
      → is_connected_state c.state ≡ true
      → c.has_session ≡ true
      → Balanced k
          (send_http_request request_id http_request callback (some stream_id) send_ok c)
          c
          (one k callback)
          (waits_under k request_id c.pending_requests)
  unfolding send_http_request calls_of
  taken-Balanced request_id http_request callback stream_id send_ok c up session =
      let r = read_request http_request in
      let noted = note_request request_id callback stream_id r.body c in
      let out =
        submit_headers (header_pairs request_id r) (length r.body == 0)
        ∷ (if length r.body == 0 then submit_end stream_id else submit_data stream_id r.body)
        ∷ [] in
      let sent = send_pending_data send_ok noted in
      ground (
        arith,
        up,
        session,
        waits-insert k request_id callback c.pending_requests,
        calls_of-append k (out ++ sent.0) (set_timer request_id stream_id ∷ []),
        calls_of-append k out sent.0,
        send_pending_data-Balanced k send_ok noted,
      )

  request-Balanced :
      (request_id http_request : Text) (callback : ℕ) (submitted : Option ℕ) (send_ok : Bool)
      (c : AgentConnection)
      → Balanced k
          (send_http_request request_id http_request callback submitted send_ok c)
          c
          (one k callback)
          (overwritten k (request request_id http_request callback submitted send_ok) c)
  unfolding overwritten send_http_request calls_of
  request-Balanced request_id http_request callback none send_ok c = ground arith
  request-Balanced request_id http_request callback (some stream_id) send_ok c =
      elim (Bool-cases c.has_session) [
        | inr gone ↦ ground (arith, gone)
        | inl session ↦ elim (Bool-cases (is_connected_state c.state)) [
          | inr down ↦ ground (arith, down, session)
          | inl up ↦ ground (
            arith,
            up,
            session,
            taken-Balanced request_id http_request callback stream_id send_ok c up session,
          )
        ]
      ]

  timeout-Balanced :
      (request_id : Text) (stream_id : ℕ) (c : AgentConnection)
      → Balanced k (on_timeout request_id stream_id c) c 0 0
  unfolding on_timeout calls_of
  timeout-Balanced request_id stream_id c =
      ground (arith, waits-erase k request_id c.pending_requests)

  tcp_send-Balanced :
      (now : ℕ) (data_bytes : Bytes) (callback : ℕ) (written : Option ℕ) (c : AgentConnection)
      → Balanced k (send_tcp_data now data_bytes callback written c) c (one k callback) 0
  unfolding send_tcp_data calls_of update_stats
  tcp_send-Balanced now data_bytes callback written c = ground arith

  step-Balanced :
      (e : Event) (c : AgentConnection) → Balanced k (step e c) c (given k e) (overwritten k e c)
  unfolding step given overwritten calls_of send_callback send_tcp_close
  step-Balanced (started now ok) c = start-Balanced k now ok c
  step-Balanced (shook_hands now failed ok) c = on_handshake-Balanced k now failed ok c
  step-Balanced (heartbeat now ok) c = on_heartbeat-Balanced k now ok c
  step-Balanced (wrote_frames would_block) c = omega arith
  step-Balanced (wrote_frames write_failed) c = omega arith
  step-Balanced (wrote_frames (wrote n)) c = omega arith
  step-Balanced (read_done now outcome calls accepted send_ok) c =
      on_read-Balanced k now outcome calls accepted send_ok c
  step-Balanced (request request_id http_request callback submitted send_ok) c =
      request-Balanced request_id http_request callback submitted send_ok c
  step-Balanced (timed_out request_id stream_id) c = timeout-Balanced request_id stream_id c
  step-Balanced (tcp_send now data_bytes callback written) c =
      tcp_send-Balanced now data_bytes callback written c
  step-Balanced (tcp_close connection_id) c = ground arith
  step-Balanced closed c = close-Balanced k c

  -- Over any sequence of calls and completions, the number of times a callback is called, the number
  -- of times it still waits, and the number of times a later request with the same id took its place
  -- add up to the number of times it waited at the start and the number of times it was given: so no
  -- callback is called twice for one request, and one is dropped only where ids collide.
  pub run-Balanced :
      (es : List Event) (c : AgentConnection)
      → calls_of k (run es c).0 + waits k (run es c).1.pending_requests + overwritten_by k es c
        ≡ waits k c.pending_requests + given_by k es
  unfolding run given_by overwritten_by calls_of
  run-Balanced [] c = omega arith
  run-Balanced (e ∷ es) c = omega (
    arith,
    step-Balanced e c,
    run-Balanced es (step e c).1,
    calls_of-append k (step e c).0 (run es (step e c).1).0,
  )
