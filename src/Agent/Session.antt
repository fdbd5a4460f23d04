-- ===== src/Agent/Session.antt =====
-- tunnel-agent/src/client/http2_session.cpp: how the session presents itself, starts, stops and
-- answers. What the socket and nghttp2 return is an argument.
use protogate.Agent.Requests.{Pending}
use protogate.Base.{
  ℕ, zero, suc, ◌+◌, Bool, true, false, not, ◌&&◌, ◌||◌, List, [], ◌∷◌, ◌++◌, Option, none, some,
  take, ◌==◌, if◌then◌else◌, Text, Map, codes, Result, ok, err, ◌>>=◌, ◌>>◌, throw_if,
}
use protogate.Http.Response.{decimal}
use protogate.Security.Tokens.{has_prefix}

pub record Session : Type 0 where
  pub active : Bool
  pub has_session : Bool
  pub pending_requests : Pending
  pub response_bodies : List (ℕ × Text)

unfoldable pub new_session : Session
new_session = record {
  active = false;
  has_session = false;
  pending_requests = [];
  response_bodies = [];
}

-- The request with which the agent presents itself.
unfoldable pub auth_request : Text → Text → Text
auth_request token tunnel_id =
    codes "CONNECT tunnel-agent HTTP/1.1"
    ++ (13
        ∷ 10
        ∷ (codes "Host: tunnel-agent"
            ++ (13
                ∷ 10
                ∷ (codes "Authorization: Bearer "
                    ++ (token
                        ++ (13
                            ∷ 10
                            ∷ (codes "X-Tunnel-ID: "
                                ++ (tunnel_id
                                    ++ (13
                                        ∷ 10
                                        ∷ (codes "X-Agent-Version: 1.0.0"
                                            ++ (13
                                                ∷ 10
                                                ∷ (codes "X-TCP-Ports: 9100"
                                                    ++ (13 ∷ 10 ∷ 13 ∷ 10 ∷ [])))))))))))))

-- `text.find(part) != npos`
unfoldable pub contains : Text → Text → Bool
contains part [] = has_prefix part []
contains part (c ∷ t) = has_prefix part (c ∷ t) || contains part t

-- What `read_some` does.
pub data Attempt : Type 0 where
  arrived : Text → Attempt
  would_block : Attempt
  read_failed : Attempt

pub data StartError : Type 0 where
  send_error read_error timeout authentication_failed : StartError

-- The loop from one attempt on, with this many left.
unfoldable pub read_response : (ℕ → Attempt) → ℕ → ℕ → Result StartError Text
read_response attempt zero i = err timeout
read_response attempt (suc left) i = elim (attempt i) [
  | arrived bytes ↦ ok bytes
  | read_failed ↦ err read_error
  | would_block ↦ read_response attempt left (i + 1)
]

-- The test of the answer.
unfoldable pub check_response : Text → Result StartError (Unit {0})
check_response response =
    throw_if
      (not (contains (codes "200") response)
        && not (contains (codes "Connection Established") response))
      authentication_failed

-- `nghttp2_session_send`, which returns 0 or fails.
unfoldable pub send_data : Bool → Session → Session
send_data sent s = if sent then s else record s { active = false }

-- The state behind the handshake; what `send_data` has made of `active` is written over.
unfoldable pub open_session : Bool → Session → Session
open_session sent s = record (send_data sent (record s { has_session = true })) { active = true }

module _ (h2 written sent : Bool) (attempt : ℕ → Attempt) where
  unfoldable pub start : Session → Result StartError Session
  start s = if h2 then ok (open_session sent s) else do
    throw_if (not written) send_error
    response ← read_response attempt 50 0
    check_response response
    ok (open_session sent s)

unfoldable pub stop : Session → Session
stop s = if s.active then record s { has_session = false; active = false } else s

-- `response_bodies_[id] = body`
unfoldable pub store_body : ℕ → Text → List (ℕ × Text) → List (ℕ × Text)
store_body id body [] = (id, body) ∷ []
store_body id body ((j, b) ∷ rest) =
    if j == id then (j, body) ∷ rest else (j, b) ∷ store_body id body rest

-- The fields that are given to nghttp2.
unfoldable pub response_fields : ℕ → Map Text → List (Text × Text)
response_fields status headers = (codes ":status", decimal status) ∷ headers

-- The read callback of the body: what it copies into a buffer of this size; it says each time that
-- this was the end.
unfoldable pub read_body : ℕ → Text → Text
read_body size body = take size body

-- The session, and what is submitted for the stream; `submitted` and `sent` are the successes of the
-- two calls of nghttp2.
unfoldable pub send_response :
    (submitted sent : Bool) → ℕ → ℕ → Map Text → Text → Session → Session × List (Text × Text)
send_response submitted sent id status headers body s =
    let stored = record s { response_bodies = store_body id body s.response_bodies } in
    (if submitted then send_data sent stored else stored, response_fields status headers)

-- `send_ping` and `process_events`
unfoldable pub send_ping : Bool → Session → Session
send_ping sent s = send_data sent s

unfoldable pub process_events : Bool → Session → Session
process_events sent s = send_data sent s

-- What is written to the socket, if anything.
unfoldable pub send_tcp_frame : Text → Session → Option Text
send_tcp_frame frame s = if s.active then some frame else none
