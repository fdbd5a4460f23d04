-- ===== src/AgentConnection/Examples.antt =====
-- The agent's connection in concrete runs.
use protogate.Agent.Stream.{handle_read}
use protogate.Agent.{handle_tcp_close}
use protogate.AgentConnection.Answers.{
  Event, started, shook_hands, heartbeat, wrote_frames, read_done, request, timed_out, tcp_send,
  tcp_close, closed, run, given_by, overwritten_by, run-Balanced,
}
use protogate.AgentConnection.CloseFrame.{close_frame-handle_read}
use protogate.AgentConnection.Closing.{run-close-answers}
use protogate.AgentConnection.Counting.{calls_of, waits}
use protogate.AgentConnection.Request.{
  ReadRequest, ordered_insert, read_request, header_pairs, read_callback,
}
use protogate.AgentConnection.Sending.{close_frame}
use protogate.AgentConnection.Session.{SessionCall, header_call, chunk_call, frame_call, data_frame}
use protogate.AgentConnection.Translation.{
  Nghttp2, IsSendable, read_request-request_to_string, read_callback-body_iff,
}
use protogate.AgentConnection.{AgentConnection, new_connection, answer, close}
use protogate.Base.{
  if◌then◌else◌, ℕ, ◌+◌, ◌≤◌, ◌≡◌, ◌≢◌, ◌↔◌, refl, arith, true, false, List, [], ◌∷◌, ◌++◌, some,
  none, codes, take, length, Text,
}
use protogate.Http.Lines.{add_all}
use protogate.Http.Request.{HttpRequest, request_to_string}
use protogate.Wire.ConnectionId.{connection_id_to_string}
use protogate.Wire.{Bytes}

abbrev fresh : AgentConnection
fresh = new_connection (codes "db")

-- Two requests, of which one is answered, and a third under the id of the second.
abbrev events : List Event
events =
    started 5 true
    ∷ request (codes "req_1") (codes "GET / HTTP/1.1" ++ (13 ∷ 10 ∷ 13 ∷ 10 ∷ [])) 7 (some 1) true
    ∷ request (codes "req_2") (codes "GET / HTTP/1.1" ++ (13 ∷ 10 ∷ 13 ∷ 10 ∷ [])) 8 (some 3) true
    ∷ read_done 6 (some (0 ∷ []))
        (header_call 1 (codes ":status") (codes "200")
          ∷ header_call 1 (codes "a") (codes "b")
          ∷ chunk_call 1 (codes "hi")
          ∷ frame_call (data_frame true 1)
          ∷ [])
        true true
    ∷ request (codes "req_2") (codes "GET / HTTP/1.1" ++ (13 ∷ 10 ∷ 13 ∷ 10 ∷ [])) 9 (some 5) true
    ∷ timed_out (codes "req_2") 3
    ∷ []

run-Balanced_example :
    calls_of 8 (run events fresh).0
      + waits 8 (run events fresh).1.pending_requests
      + overwritten_by 8 events fresh
    ≡ waits 8 fresh.pending_requests + given_by 8 events
run-Balanced_example = run-Balanced 8 events fresh

-- The second request's callback is never called.
lost_test : calls_of 8 (run events fresh).0 + waits 8 (run events fresh).1.pending_requests ≡ 0
unfolding calls_of waits run protogate.AgentConnection.Answers.step protogate.AgentConnection.start
    new_connection protogate.AgentConnection.start_session
    protogate.AgentConnection.send_pending_data protogate.AgentConnection.Sending.send_http_request
    read_request header_pairs protogate.AgentConnection.Request.without_host
    protogate.Http.Text.getline protogate.Http.Text.split_at protogate.Http.Text.read_words
    protogate.Http.Text.read_word protogate.Http.Text.read_headers protogate.Http.Text.pop_cr
    protogate.Http.Text.header_of protogate.AgentConnection.Session.on_read
    protogate.AgentConnection.Session.session_calls protogate.AgentConnection.Session.session_call
    protogate.AgentConnection.Session.on_header protogate.AgentConnection.Session.on_data_chunk_recv
    protogate.AgentConnection.Session.on_frame_recv
    protogate.AgentConnection.Session.complete_request protogate.AgentConnection.Session.response_of
    protogate.AgentConnection.Session.after_read protogate.AgentConnection.Sending.on_timeout
    protogate.Base.find protogate.Base.insert protogate.Base.erase protogate.Base.text_eq
lost_test = refl

run-close-answers_example :
    calls_of 7 ((run events fresh).0 ++ (close (run events fresh).1).0)
      + overwritten_by 7 events fresh
    ≡ given_by 7 events
unfolding new_connection
run-close-answers_example = run-close-answers 7 events fresh refl

abbrev post : HttpRequest
post = record {
  method = codes "POST";
  path = codes "/x";
  version = codes "HTTP/1.1";
  host = codes "db.example.com";
  client_ip = [];
  headers = (codes "X-B", codes "2") ∷ (codes "Host", codes "db.example.com") ∷ [];
  body = codes "hello";
}

post-IsSendable : IsSendable post
unfolding protogate.Http.Text.trim
post-IsSendable = ground arith

read_request-request_to_string_example : read_request (request_to_string post) ≡ record {
  method = codes "POST";
  path = codes "/x";
  headers = add_all ordered_insert post.headers [];
  body = codes "hello";
}
read_request-request_to_string_example = read_request-request_to_string post post-IsSendable

-- A library with a buffer of three bytes, which calls twice where the first call is not the end.
abbrev library : Nghttp2
library = record {
  buffer_size = 3;
  read_body =
      λ callback. if (callback 3).1 then (callback 3).0 else (callback 3).0 ++ (callback 3).0;
  read_body-eof = λ callback eof. rw eof refl;
}

read_callback-body_iff_example :
    (library.read_body (read_callback (read_request (request_to_string post)).body) ≡ codes "hello")
    ↔ (5 ≤ 3)
read_callback-body_iff_example = read_callback-body_iff library post post-IsSendable

pairs_test :
    header_pairs (codes "r") (read_request (request_to_string post))
    ≡ (codes ":method", codes "POST")
      ∷ (codes ":path", codes "/x")
      ∷ (codes ":scheme", codes "https")
      ∷ (codes ":authority", codes "db.example.com")
      ∷ (codes "x-tunnel-request-id", codes "r")
      ∷ (codes "x-b", codes "2")
      ∷ []
unfolding header_pairs read_request protogate.Base.find protogate.Http.Text.read_words
    protogate.Http.Text.read_headers protogate.Http.Text.read_word protogate.Http.Text.getline
    request_to_string protogate.Http.Text.split_at protogate.Http.Request.header_lines
    protogate.Base.text_eq protogate.Http.Text.header_of protogate.Http.Text.pop_cr ordered_insert
    protogate.Http.Text.lower protogate.AgentConnection.Request.text_lt protogate.Http.Text.trim
    protogate.AgentConnection.Request.without_host
pairs_test = refl

abbrev uuid : Bytes
uuid = 1 ∷ 2 ∷ 3 ∷ 4 ∷ 5 ∷ 6 ∷ 7 ∷ 8 ∷ 9 ∷ 10 ∷ 11 ∷ 12 ∷ 13 ∷ 14 ∷ 15 ∷ 16 ∷ []

close_frame-handle_read_example :
    (handle_read true (close_frame (connection_id_to_string uuid))
      ≡ (handle_tcp_close (take 16 (connection_id_to_string uuid)) ∷ [], []))
    × (take 16 (connection_id_to_string uuid) ≢ uuid)
close_frame-handle_read_example = close_frame-handle_read uuid refl (omega arith) (omega arith)
