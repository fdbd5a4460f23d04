-- ===== src/Agent/Witness.antt =====
-- A request of the server at the agent's session.
use protogate.Agent.Headers.{IsOrdinary}
use protogate.Agent.Received.{request_events, body_of, handle_events-header_pairs}
use protogate.Agent.Requests.{
  Http2Request, new_request, Pending, find_request, handle_events, on_request,
}
use protogate.Agent.Session.{
  Session, Attempt, arrived, would_block, StartError, timeout, new_session, start, stop,
  send_response, read_body, send_tcp_frame,
}
use protogate.AgentConnection.Request.{ReadRequest, header_pairs}
use protogate.Base.{
  ◌≡◌, refl, true, false, List, [], ◌∷◌, ◌==◌, if◌then◌else◌, Text, find, IsMap, text_eq, codes,
  All, ok, err,
}

abbrev request : ReadRequest
request = record {
  method = codes "POST";
  path = codes "/x";
  headers = (codes "accept", codes "b") ∷ (codes "host", codes "db") ∷ [];
  body = codes "hello";
}

abbrev pieces : List Text
pieces = codes "hel" ∷ codes "lo" ∷ []

abbrev waiting : Pending
waiting = (5, new_request) ∷ []

request-IsMap : IsMap request.headers
unfolding find text_eq
request-IsMap = (refl, (refl, tt))

request-IsOrdinary : All IsOrdinary request.headers
unfolding text_eq
request-IsOrdinary = ((refl, refl, refl, refl, refl), ((refl, refl, refl, refl, refl), tt))

handle_events-header_pairs_example :
    (req : Http2Request) × (handle_events
        (request_events 3 (header_pairs (codes "7") request) pieces)
        waiting
      ≡ (waiting, on_request req ∷ []))
    × (req.stream_id ≡ 3)
    × (req.method ≡ codes "POST")
    × (req.path ≡ codes "/x")
    × (req.request_id ≡ codes "7")
    × (req.body ≡ (if 3 == 1 then [] else body_of 3 pieces))
    × ((k : Text)
        → text_eq k (codes "host") ≡ false
        → text_eq k (codes ":scheme") ≡ false
        → find k req.headers ≡ find k request.headers)
handle_events-header_pairs_example =
    handle_events-header_pairs 3 (codes "7") request pieces waiting request-IsMap request-IsOrdinary
      (unfold find_request in refl)

-- Nothing comes: the session does not start.
start_timeout : start false true true (λ i. would_block) new_session ≡ err timeout
unfolding start protogate.Agent.Session.read_response
start_timeout = refl

start_ok :
    start false true false
      (λ i. if i == 0 then would_block else arrived (codes "HTTP/1.1 200 Connection established"))
      new_session
    ≡ ok (record new_session { active = true; has_session = true })
unfolding start protogate.Agent.Session.read_response protogate.Agent.Session.check_response
    protogate.Agent.Session.contains protogate.Agent.Session.open_session
    protogate.Agent.Session.send_data protogate.Security.Tokens.has_prefix text_eq new_session
start_ok = refl
