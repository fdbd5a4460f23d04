-- ===== src/AgentConnection/Counting.antt =====
-- How often a callback is called and how often it waits, for each method of the agent's connection.
use protogate.AgentConnection.Session.{
  complete_request, Frame, ping_frame, headers_frame, data_frame, goaway_frame, other_frame,
  on_frame_recv, SessionCall, header_call, chunk_call, frame_call, session_call, session_calls,
  after_read, on_read, on_header, response_of,
}
use protogate.AgentConnection.{
  State, AgentConnection, Outcome, answer, on_disconnect, tcp_frame, submit_headers, submit_data,
  submit_end, submit_ping, handshake, read, write, set_timer, Handled, then_do, key, fail_all,
  handle_disconnect, close, send_pending_data, start_session, start, on_handshake, on_heartbeat,
  is_closed_state, is_connected_state, disconnected, connected,
}
use protogate.Base.{
  ℕ, ◌+◌, ◌%◌, ◌^◌, ◌≡◌, refl, Bool, true, false, Bool-cases, List, [], ◌∷◌, ◌++◌, arith, Option,
  none, some, Option-cases, inl, inr, ◌==◌, if◌then◌else◌, Text, Map, find, insert, erase, length,
}
use protogate.Wire.{Bytes}

abbrev pub one : ℕ → ℕ → ℕ
one k callback = if callback == k then 1 else 0

-- How often the callback is called.
unfoldable pub calls_of : ℕ → List Outcome → ℕ
calls_of k [] = 0
calls_of k (answer callback response error ∷ out) = one k callback + calls_of k out
calls_of k (on_disconnect id ∷ out) = calls_of k out
calls_of k (tcp_frame bytes ∷ out) = calls_of k out
calls_of k (submit_headers pairs end_stream ∷ out) = calls_of k out
calls_of k (submit_data stream_id body ∷ out) = calls_of k out
calls_of k (submit_end stream_id ∷ out) = calls_of k out
calls_of k (submit_ping ∷ out) = calls_of k out
calls_of k (handshake ∷ out) = calls_of k out
calls_of k (read ∷ out) = calls_of k out
calls_of k (write bytes ∷ out) = calls_of k out
calls_of k (set_timer id stream_id ∷ out) = calls_of k out

-- How often the callback waits.
unfoldable pub waits : ℕ → Map ℕ → ℕ
waits k [] = 0
waits k ((id, callback) ∷ pending) = one k callback + waits k pending

-- The same of the callback under one id.
abbrev pub waits_under : ℕ → Text → Map ℕ → ℕ
waits_under k id pending = elim (find id pending) [ none ↦ 0 | some callback ↦ one k callback ]

pub calls_of-append :
    (k : ℕ) (xs ys : List Outcome) → calls_of k (xs ++ ys) ≡ calls_of k xs + calls_of k ys
unfolding calls_of
calls_of-append k [] ys = omega arith
calls_of-append k (answer callback response error ∷ xs) ys = omega (arith, calls_of-append k xs ys)
calls_of-append k (on_disconnect id ∷ xs) ys = calls_of-append k xs ys
calls_of-append k (tcp_frame bytes ∷ xs) ys = calls_of-append k xs ys
calls_of-append k (submit_headers pairs end_stream ∷ xs) ys = calls_of-append k xs ys
calls_of-append k (submit_data stream_id body ∷ xs) ys = calls_of-append k xs ys
calls_of-append k (submit_end stream_id ∷ xs) ys = calls_of-append k xs ys
calls_of-append k (submit_ping ∷ xs) ys = calls_of-append k xs ys
calls_of-append k (handshake ∷ xs) ys = calls_of-append k xs ys
calls_of-append k (read ∷ xs) ys = calls_of-append k xs ys
calls_of-append k (write bytes ∷ xs) ys = calls_of-append k xs ys
calls_of-append k (set_timer id stream_id ∷ xs) ys = calls_of-append k xs ys

pub calls_of-fail_all : (k : ℕ) (pending : Map ℕ) → calls_of k (fail_all pending) ≡ waits k pending
unfolding calls_of fail_all waits
calls_of-fail_all k [] = refl
calls_of-fail_all k ((id, callback) ∷ pending) = omega (arith, calls_of-fail_all k pending)

pub waits-insert :
    (k : ℕ) (id : Text) (callback : ℕ) (pending : Map ℕ)
    → waits k (insert id callback pending) + waits_under k id pending
      ≡ waits k pending + one k callback
unfolding waits insert find
waits-insert k id callback [] = omega arith
waits-insert k id callback ((j, other) ∷ pending) =
    ground (arith, waits-insert k id callback pending)

pub waits-erase :
    (k : ℕ) (id : Text) (pending : Map ℕ)
    → waits k (erase id pending) + waits_under k id pending ≡ waits k pending
unfolding waits erase find
waits-erase k id [] = refl
waits-erase k id ((j, other) ∷ pending) = ground (arith, waits-erase k id pending)

-- What a method calls and leaves waiting is what waited, and what it was given, but for a loss.
abbrev pub Balanced : ℕ → Handled → AgentConnection → ℕ → ℕ → Type 0
Balanced k h c given lost =
    calls_of k h.0 + waits k h.1.pending_requests + lost ≡ waits k c.pending_requests + given

module _ (k : ℕ) where
  pub then_do-Balanced :
      (h : Handled) (f : AgentConnection → Handled) (c : AgentConnection) (given lost : ℕ)
      → Balanced k h c given lost
      → Balanced k (f h.1) h.1 0 0
      → Balanced k (then_do h f) c given lost
  then_do-Balanced (out, c1) f c given lost first second =
      omega (arith, calls_of-append k out (f c1).0)

  pub handle_disconnect-Balanced : (c : AgentConnection) → Balanced k (handle_disconnect c) c 0 0
  unfolding handle_disconnect calls_of waits
  handle_disconnect-Balanced c = ground (
    arith,
    calls_of-append k (fail_all c.pending_requests)
        (if c.has_on_disconnect then on_disconnect c.tunnel_id ∷ [] else []),
    calls_of-fail_all k c.pending_requests,
  )

  pub close-Balanced : (c : AgentConnection) → Balanced k (close c) c 0 0
  unfolding close calls_of
  close-Balanced c = elim (Bool-cases (is_closed_state c.state)) [
    | inl closed ↦ ground (arith, closed)
    | inr open_ ↦ ground (
      arith,
      open_,
      handle_disconnect-Balanced (record c { state = disconnected; has_session = false }),
    )
  ]

  pub send_pending_data-Balanced :
      (ok : Bool) (c : AgentConnection) → Balanced k (send_pending_data ok c) c 0 0
  unfolding send_pending_data calls_of
  send_pending_data-Balanced true c = omega arith
  send_pending_data-Balanced (false) c = close-Balanced c

  start_session-Balanced :
      (now : ℕ) (ok : Bool) (c : AgentConnection) → Balanced k (start_session now ok c) c 0 0
  unfolding start_session calls_of
  start_session-Balanced now ok c =
      let sent = send_pending_data ok (record c { has_session = true }) in
      omega (
        arith,
        send_pending_data-Balanced ok (record c { has_session = true }),
        calls_of-append k sent.0 (read ∷ []),
      )

  pub start-Balanced :
      (now : ℕ) (ok : Bool) (c : AgentConnection) → Balanced k (start now ok c) c 0 0
  unfolding start calls_of
  start-Balanced now ok c =
      ground (arith, start_session-Balanced now ok (record c { has_on_disconnect = true }))

  pub on_handshake-Balanced :
      (now : ℕ) (failed ok : Bool) (c : AgentConnection)
      → Balanced k (on_handshake now failed ok c) c 0 0
  unfolding on_handshake
  on_handshake-Balanced now true ok c =
      handle_disconnect-Balanced (record c { state = disconnected })
  on_handshake-Balanced now (false) ok c =
      start_session-Balanced now ok (record c { state = connected })

  pub on_heartbeat-Balanced :
      (now : ℕ) (ok : Bool) (c : AgentConnection) → Balanced k (on_heartbeat now ok c) c 0 0
  unfolding on_heartbeat calls_of
  on_heartbeat-Balanced now ok c = ground (
    arith,
    close-Balanced c,
    then_do-Balanced (submit_ping ∷ [], c) (send_pending_data ok) c 0 0 (omega arith)
        (send_pending_data-Balanced ok c),
  )

  complete_request-Balanced :
      (stream_id : ℕ) (c : AgentConnection) → Balanced k (complete_request stream_id c) c 0 0
  unfolding complete_request calls_of
  complete_request-Balanced stream_id c =
      elim (Option-cases (find (key stream_id) c.stream_to_request)) [
        | inl gone ↦ ground (arith, gone)
        | inr (request_id, known) ↦
            ground (arith, known, waits-erase k request_id c.pending_requests)
      ]

  on_frame_recv-Balanced :
      (now : ℕ) (frame : Frame) (c : AgentConnection) → Balanced k (on_frame_recv now frame c) c 0 0
  unfolding on_frame_recv calls_of
  on_frame_recv-Balanced now (ping_frame ack) c = ground arith
  on_frame_recv-Balanced now (headers_frame is_response end_stream stream_id) c =
      ground (arith, complete_request-Balanced stream_id c)
  on_frame_recv-Balanced now (data_frame end_stream stream_id) c =
      ground (arith, complete_request-Balanced stream_id c)
  on_frame_recv-Balanced now goaway_frame c = close-Balanced c
  on_frame_recv-Balanced now other_frame c = omega arith

  session_call-Balanced :
      (now : ℕ) (call : SessionCall) (c : AgentConnection)
      → Balanced k (session_call now call c) c 0 0
  unfolding session_call calls_of on_header protogate.AgentConnection.Session.on_data_chunk_recv
  session_call-Balanced now (header_call stream_id name value) c = ground arith
  session_call-Balanced now (chunk_call stream_id chunk) c = omega arith
  session_call-Balanced now (frame_call frame) c = on_frame_recv-Balanced now frame c

  session_calls-Balanced :
      (now : ℕ) (calls : List SessionCall) (c : AgentConnection)
      → Balanced k (session_calls now calls c) c 0 0
  unfolding session_calls calls_of
  session_calls-Balanced now [] c = omega arith
  session_calls-Balanced now (call ∷ calls) c =
      then_do-Balanced (session_call now call c) (session_calls now calls) c 0 0
        (session_call-Balanced now call c)
        (session_calls-Balanced now calls (session_call now call c).1)

  after_read-Balanced :
      (send_ok : Bool) (c : AgentConnection) → Balanced k (after_read send_ok c) c 0 0
  unfolding after_read calls_of
  after_read-Balanced true c = omega arith
  after_read-Balanced (false) c = close-Balanced c

  finish-Balanced :
      (accepted send_ok : Bool) (c : AgentConnection)
      → Balanced k ((if accepted then after_read send_ok else close) c) c 0 0
  finish-Balanced true send_ok c = after_read-Balanced send_ok c
  finish-Balanced (false) send_ok c = close-Balanced c

  handed :
      (has_handler : Bool) (bytes : Bytes) (c : AgentConnection)
      → calls_of k (if has_handler then tcp_frame bytes ∷ [] else [])
          + waits k c.pending_requests
          + 0
        ≡ waits k c.pending_requests + 0
  unfolding calls_of
  handed true bytes c = omega arith
  handed (false) bytes c = omega arith

  pub on_read-Balanced :
      (now : ℕ) (outcome : Option Bytes) (calls : List SessionCall) (accepted send_ok : Bool)
      (c : AgentConnection)
      → Balanced k (on_read now outcome calls accepted send_ok c) c 0 0
  unfolding on_read calls_of
  on_read-Balanced now none calls accepted send_ok c = close-Balanced c
  on_read-Balanced now (some bytes) calls accepted send_ok c =
      let c' = record c { bytes_received = (c.bytes_received + length bytes) % 2 ^ 64 } in
      let frames = if c.has_tcp_frame_handler then tcp_frame bytes ∷ [] else [] in
      let fed = session_calls now calls c' in
      let finish = if accepted then after_read send_ok else close in
      ground (
        arith,
        after_read-Balanced send_ok c',
        then_do-Balanced (frames, c') (after_read send_ok) c 0 0
            (handed c.has_tcp_frame_handler bytes c) (after_read-Balanced send_ok c'),
        then_do-Balanced fed finish c 0 0 (session_calls-Balanced now calls c')
            (finish-Balanced accepted send_ok fed.1),
      )
