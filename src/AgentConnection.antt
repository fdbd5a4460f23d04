-- ===== src/AgentConnection.antt =====
-- src/agent/agent_connection.h and .cpp: the server's side of an agent's connection, with the requests
-- that wait for the agent's answer. AgentConnection/Request has the translation of a request's text,
-- AgentConnection/Session the callbacks of nghttp2 and the completion of a read,
-- AgentConnection/Sending what the server sends.
--
-- A callback is a number that says which one it is; calling it is an outcome. What nghttp2 and the
-- socket return is an argument. The mutex is left out: the methods run one after the other.
pub mod Request
pub mod Session
pub mod Sending
pub mod Translation
pub mod Counting
pub mod Answers
pub mod Closing
pub mod CloseFrame
pub mod Examples
use protogate.Base.{
  ℕ, ◌+◌, ◌-◌, ◌/◌, ◌%◌, ◌^◌, Bool, true, false, ◌||◌, List, [], ◌∷◌, ◌++◌, if◌then◌else◌, ltb,
  Text, Map,
}
use protogate.Wire.{Bytes}

-- `enum class State`
pub data State : Type 0 where
  connecting authenticating connected disconnecting disconnected : State

abbrev pub is_connected_state : State → Bool
is_connected_state s = elim s [
  | connecting ↦ false
  | authenticating ↦ false
  | connected ↦ true
  | disconnecting ↦ false
  | disconnected ↦ false
]

abbrev pub is_closed_state : State → Bool
is_closed_state s = elim s [
  | connecting ↦ false
  | authenticating ↦ false
  | connected ↦ false
  | disconnecting ↦ true
  | disconnected ↦ true
]

-- A stream's number as a key.
abbrev pub key : ℕ → Text
key stream_id = stream_id ∷ []

pub record AgentConnection : Type 0 where
  pub tunnel_id : Text
  pub state : State
  pub has_on_disconnect : Bool
  pub has_tcp_frame_handler : Bool
  pub has_session : Bool
  pub last_heartbeat : ℕ
  pub bytes_sent : ℕ
  pub bytes_received : ℕ
  pub pending_requests : Map ℕ
  pub stream_to_request : Map Text
  pub stream_bodies : Map Text
  pub stream_headers : Map Text
  pub stream_bodies_recv : Map Text

-- What a method calls or starts, in order.
pub data Outcome : Type 0 where
  -- A callback with its response and its error flag.
  answer : ℕ → Text → Bool → Outcome
  on_disconnect : Text → Outcome
  tcp_frame : Bytes → Outcome
  -- Calls of nghttp2 and of the socket.
  submit_headers : List (Text × Text) → Bool → Outcome
  submit_data : ℕ → Text → Outcome
  submit_end : ℕ → Outcome
  submit_ping : Outcome
  handshake : Outcome
  read : Outcome
  write : Bytes → Outcome
  set_timer : Text → ℕ → Outcome

abbrev pub Handled : Type 0
Handled = List Outcome × AgentConnection

-- One method, and then another on what it leaves.
abbrev pub then_do : Handled → (AgentConnection → Handled) → Handled
then_do (out, c) f = let (more, c') = f c in (out ++ more, c')

-- The second constructor, for a socket whose handshake is over.
unfoldable pub new_connection : Text → AgentConnection
new_connection tunnel_id = record {
  tunnel_id = tunnel_id;
  state = connected;
  has_on_disconnect = false;
  has_tcp_frame_handler = false;
  has_session = false;
  last_heartbeat = 0;
  bytes_sent = 0;
  bytes_received = 0;
  pending_requests = [];
  stream_to_request = [];
  stream_bodies = [];
  stream_headers = [];
  stream_bodies_recv = [];
}

unfoldable pub set_tcp_frame_handler : AgentConnection → AgentConnection
set_tcp_frame_handler c = record c { has_tcp_frame_handler = true }

-- `for (auto& [request_id, callback] : pending_requests_) callback("", true);`
unfoldable pub fail_all : Map ℕ → List Outcome
fail_all [] = []
fail_all ((id, callback) ∷ pending) = answer callback [] true ∷ fail_all pending

unfoldable pub handle_disconnect : AgentConnection → Handled
handle_disconnect c = (
  fail_all c.pending_requests
      ++ (if c.has_on_disconnect then on_disconnect c.tunnel_id ∷ [] else []),
  record c { pending_requests = [] },
)

unfoldable pub close : AgentConnection → Handled
close c =
    if is_closed_state c.state
    then ([], c)
    else handle_disconnect (record c { state = disconnected; has_session = false })

-- `nghttp2_session_send` returns 0 or an error.
unfoldable pub send_pending_data : Bool → AgentConnection → Handled
send_pending_data ok c = if ok then ([], c) else close c

-- `initialize_nghttp2`, `start_heartbeat` and `start_read`.
unfoldable pub start_session : ℕ → Bool → AgentConnection → Handled
start_session now ok c =
    let (out, c') = send_pending_data ok (record c { has_session = true }) in
    (out ++ (read ∷ []), record c' { last_heartbeat = now })

unfoldable pub start : ℕ → Bool → AgentConnection → Handled
start now ok c =
    let c' = record c { has_on_disconnect = true } in
    if is_connected_state c.state then start_session now ok c' else (handshake ∷ [], c')

-- The completion of the handshake.
unfoldable pub on_handshake : ℕ → Bool → Bool → AgentConnection → Handled
on_handshake now failed ok c =
    if failed
    then handle_disconnect (record c { state = disconnected })
    else start_session now ok (record c { state = connected })

-- The heartbeat's timer, with the time in nanoseconds; it is set again unless the connection closes
-- for want of an answer.
unfoldable pub on_heartbeat : ℕ → Bool → AgentConnection → Handled
on_heartbeat now ok c =
    if ltb 60 ((now - c.last_heartbeat) / 1000000000)
    then close c
    else if c.has_session
    then then_do (submit_ping ∷ [], c) (send_pending_data ok)
    else ([], c)

unfoldable pub update_stats : ℕ → ℕ → ℕ → AgentConnection → AgentConnection
update_stats now sent received c = record c {
  bytes_sent = (c.bytes_sent + sent) % 2 ^ 64;
  bytes_received = (c.bytes_received + received) % 2 ^ 64;
  last_heartbeat = now;
}

-- What `write_some` gives to `send_callback`.
pub data Written : Type 0 where
  would_block : Written
  write_failed : Written
  wrote : ℕ → Written

unfoldable pub send_callback : Written → AgentConnection → AgentConnection
send_callback would_block c = c
send_callback write_failed c = c
send_callback (wrote n) c = record c { bytes_sent = (c.bytes_sent + n) % 2 ^ 64 }
