-- ===== src/Agent/Requests.antt =====
-- tunnel-agent/src/client/http2_session.h, http2_session.cpp: the HTTP requests that nghttp2's
-- callbacks put together, and their hand-over to the callback of `start`. The callbacks of nghttp2 are
-- events here; stream ids are numbers.
use protogate.AgentConnection.Request.{ordered_insert}
use protogate.Base.{
  ℕ, Bool, List, [], ◌∷◌, ◌++◌, ◌&&◌, Option, none, some, ◌==◌, if◌then◌else◌, Text, Map, text_eq,
  codes,
}

pub record Http2Request : Type 0 where
  pub stream_id : ℕ
  pub method : Text
  pub path : Text
  pub authority : Text
  pub headers : Map Text
  pub body : Text
  pub request_id : Text
  pub client_ip : Text

-- What `pending_requests_[id]` makes for a new key.
abbrev pub new_request : Http2Request
new_request = record {
  stream_id = 0;
  method = [];
  path = [];
  authority = [];
  headers = [];
  body = [];
  request_id = [];
  client_ip = [];
}

abbrev pub Pending : Type 0
Pending = List (ℕ × Http2Request)

-- `find` of `pending_requests_`.
unfoldable pub find_request : ℕ → Pending → Option Http2Request
find_request id [] = none
find_request id ((j, r) ∷ rest) = if j == id then some r else find_request id rest

unfoldable pub erase_request : ℕ → Pending → Pending
erase_request id [] = []
erase_request id ((j, r) ∷ rest) = if j == id then rest else (j, r) ∷ erase_request id rest

-- `f(pending_requests_[id])`
unfoldable pub update_request : ℕ → (Http2Request → Http2Request) → Pending → Pending
update_request id f [] = (id, f new_request) ∷ []
update_request id f ((j, r) ∷ rest) =
    if j == id then (j, f r) ∷ rest else (j, r) ∷ update_request id f rest

-- The field of a header that it is kept in.
unfoldable pub store_header : ℕ → Text → Text → Http2Request → Http2Request
store_header id name value r =
    let req = record r { stream_id = id } in
    if text_eq name (codes ":method")
    then record req { method = value }
    else if text_eq name (codes ":path")
    then record req { path = value }
    else if text_eq name (codes ":authority")
    then record req { authority = value }
    else if text_eq name (codes "x-tunnel-request-id")
    then record req { request_id = value }
    else if text_eq name (codes "x-client-ip")
    then record req { client_ip = value }
    else record req { headers = ordered_insert name value req.headers }

unfoldable pub on_header : ℕ → Text → Text → Pending → Pending
on_header id name value pending = update_request id (store_header id name value) pending

-- Stream 1 is taken for the one of the agent's own CONNECT.
unfoldable pub on_data_chunk : ℕ → Text → Pending → Pending
on_data_chunk id bytes pending =
    if id == 1
    then pending
    else update_request id (λ r. record r { body = r.body ++ bytes }) pending

-- The kinds of frame that the callback looks at, with their flags.
pub data Frame : Type 0 where
  headers_frame : Bool → Bool → Frame
  data_frame : Bool → Frame
  ping_frame : Bool → Frame
  other_frame : Frame

-- What the session calls.
pub data Notice : Type 0 where
  on_request : Http2Request → Notice
  on_ping_ack : Notice

-- The request is handed over and forgotten, if it is there.
unfoldable pub hand_over : ℕ → Pending → Pending × List Notice
hand_over id pending = elim (find_request id pending) [
  | none ↦ (pending, [])
  | some r ↦ (erase_request id pending, on_request r ∷ [])
]

-- `on_request_` and `on_ping_ack_` are set.
unfoldable pub on_frame_recv : ℕ → Frame → Pending → Pending × List Notice
on_frame_recv id (headers_frame end_headers end_stream) pending =
    if end_headers && end_stream then hand_over id pending else (pending, [])
on_frame_recv id (data_frame end_stream) pending =
    if end_stream then hand_over id pending else (pending, [])
on_frame_recv id (ping_frame ack) pending = (pending, if ack then on_ping_ack ∷ [] else [])
on_frame_recv id other_frame pending = (pending, [])

-- The callbacks of nghttp2 while it takes what was read.
pub data Event : Type 0 where
  header : ℕ → Text → Text → Event
  data_chunk : ℕ → Text → Event
  frame_recv : ℕ → Frame → Event

unfoldable pub handle_event : Event → Pending → Pending × List Notice
handle_event (header id name value) pending = (on_header id name value pending, [])
handle_event (data_chunk id bytes) pending = (on_data_chunk id bytes pending, [])
handle_event (frame_recv id frame) pending = on_frame_recv id frame pending

unfoldable pub handle_events : List Event → Pending → Pending × List Notice
handle_events [] pending = (pending, [])
handle_events (e ∷ events) pending =
    let (next, out) = handle_event e pending in
    let (last, rest) = handle_events events next in (last, out ++ rest)
