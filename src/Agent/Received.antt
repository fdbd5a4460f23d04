-- ===== src/Agent/Received.antt =====
-- A request of the server, src/agent/agent_connection.cpp, at the callbacks of the agent's session.
use protogate.Agent.Headers.{
  store_all, insert_all, IsOrdinary, store_all-ordinary, find-insert_all, find-without_host,
  without_host-IsMap, without_host-IsOrdinary,
}
use protogate.Agent.Pending.{update-new, update-last, hand_over-last}
use protogate.Agent.Requests.{
  Http2Request, new_request, Pending, find_request, store_header, on_header, on_data_chunk,
  headers_frame, data_frame, on_request, on_frame_recv, Event, header, data_chunk, frame_recv,
  handle_event, handle_events,
}
use protogate.AgentConnection.Request.{ordered_insert, ReadRequest, without_host, header_pairs}
use protogate.Base.{
  ℕ, ◌≡◌, refl, ◌∙◌, ap, arith, true, false, List, [], ◌∷◌, ◌++◌, append_assoc, append-nil, none,
  some, ◌==◌, if◌then◌else◌, Text, Map, find, IsMap, text_eq, text_eq_iff, codes, All, Bool-cases,
  Option-cases, inl, inr,
}

module _ (id : ℕ) where
  -- The callbacks for the header fields, and those for the pieces of the body.
  pub headers_of : List (Text × Text) → List Event
  headers_of [] = []
  headers_of ((name, value) ∷ pairs) = header id name value ∷ headers_of pairs

  pub chunks_of : List Text → List Event
  chunks_of [] = []
  chunks_of (bytes ∷ chunks) = data_chunk id bytes ∷ chunks_of chunks

  pub body_of : List Text → Text
  body_of [] = []
  body_of (bytes ∷ chunks) = bytes ++ body_of chunks

  handle-headers_of :
      (pairs : List (Text × Text)) (p : Pending) (r : Http2Request) (events : List Event)
      → find_request id p ≡ none
      → handle_events (headers_of pairs ++ events) (p ++ (id, r) ∷ [])
        ≡ handle_events events (p ++ (id, store_all id pairs r) ∷ [])
  unfolding headers_of store_all handle_events handle_event on_header
  handle-headers_of [] p r events e = refl
  handle-headers_of ((name, value) ∷ pairs) p r events e =
      rw (update-last id (store_header id name value) p r e)
        (handle-headers_of pairs p (store_header id name value r) events e)

  handle-chunks_of :
      (chunks : List Text) (p : Pending) (r : Http2Request) (events : List Event)
      → find_request id p ≡ none
      → (id == 1) ≡ false
      → handle_events (chunks_of chunks ++ events) (p ++ (id, r) ∷ [])
        ≡ handle_events events (p ++ (id, record r { body = r.body ++ body_of chunks }) ∷ [])
  unfolding chunks_of body_of handle_events handle_event on_data_chunk
  handle-chunks_of [] p r events e other = rw (append-nil r.body)
  handle-chunks_of (bytes ∷ chunks) p r events e other =
      let r' : Http2Request = record r { body = r.body ++ bytes } in
      rw (other, update-last id (λ r. record r { body = r.body ++ bytes }) p r e)
        (handle-chunks_of chunks p r' events e other
          ∙ ap (λ b. handle_events events (p ++ (id, record r { body = b }) ∷ []))
              (append_assoc r.body bytes (body_of chunks)))

  handle-chunks_of_one :
      (chunks : List Text) (p : Pending) (events : List Event)
      → (id == 1) ≡ true
      → handle_events (chunks_of chunks ++ events) p ≡ handle_events events p
  unfolding chunks_of handle_events handle_event on_data_chunk
  handle-chunks_of_one [] p events one = refl
  handle-chunks_of_one (bytes ∷ chunks) p events one =
      rw one (handle-chunks_of_one chunks p events one)

  -- What nghttp2 calls behind the fields of a request whose body comes in these pieces.
  pub end_of : List Text → List Event
  end_of [] = frame_recv id (headers_frame true true) ∷ []
  end_of (bytes ∷ chunks) =
      frame_recv id (headers_frame true false)
      ∷ (chunks_of (bytes ∷ chunks) ++ frame_recv id (data_frame true) ∷ [])

  pub request_events : List (Text × Text) → List Text → List Event
  request_events pairs chunks = headers_of pairs ++ end_of chunks

  -- The request that the fields of the server's request come to.
  pub received : Text → ReadRequest → Text → Http2Request
  received request_id r body = record {
    stream_id = id;
    method = r.method;
    path = r.path;
    authority = elim (find (codes "host") r.headers) [ none ↦ [] | some host ↦ host ];
    headers = insert_all (without_host r.headers) ((codes ":scheme", codes "https") ∷ []);
    body = body;
    request_id = request_id;
    client_ip = [];
  }

  store_all-header_pairs :
      (request_id : Text) (r : ReadRequest)
      → All IsOrdinary r.headers
      → store_all id (header_pairs request_id r) new_request ≡ received request_id r []
  unfolding header_pairs store_all store_header received ordered_insert text_eq
  store_all-header_pairs request_id r h =
      let base : Http2Request = received request_id r [] in
      let ordinary = λ (q : Http2Request).
        store_all-ordinary id (without_host r.headers) q ((codes ":scheme", codes "https") ∷ [])
          (without_host-IsOrdinary r.headers h) in
      elim (Option-cases (find (codes "host") r.headers)) [
        | inl gone ↦ rw gone (ordinary (record base { authority = [] }))
        | inr (host, found) ↦ rw found (ordinary (record base { authority = host }))
      ]

  -- The body that arrives: that of stream 1 is dropped.
  pub kept_body : List Text → Text
  kept_body chunks = if id == 1 then [] else body_of chunks

  handle-body :
      (chunks : List Text) (p : Pending) (r : Http2Request) (events : List Event)
      → find_request id p ≡ none
      → handle_events (chunks_of chunks ++ events) (p ++ (id, record r { body = [] }) ∷ [])
        ≡ handle_events events (p ++ (id, record r { body = kept_body chunks }) ∷ [])
  unfolding kept_body
  handle-body chunks p r events e = elim (Bool-cases (id == 1)) [
    | inl one ↦
        rw one (handle-chunks_of_one chunks (p ++ (id, record r { body = [] }) ∷ []) events one)
    | inr other ↦ rw other (handle-chunks_of chunks p (record r { body = [] }) events e other)
  ]

  no_body : [] ≡ kept_body []
  unfolding kept_body body_of
  no_body = ground arith

  handle-end_of :
      (chunks : List Text) (p : Pending) (r : Http2Request)
      → find_request id p ≡ none
      → handle_events (end_of chunks) (p ++ (id, record r { body = [] }) ∷ [])
        ≡ (p, on_request (record r { body = kept_body chunks }) ∷ [])
  unfolding end_of handle_events handle_event on_frame_recv
  handle-end_of [] p r e =
      rw (hand_over-last id p (record r { body = [] }) e)
        (ap (λ b. (p, on_request (record r { body = b }) ∷ [])) no_body)
  handle-end_of (bytes ∷ chunks) p r e =
      handle-body (bytes ∷ chunks) p r (frame_recv id (data_frame true) ∷ []) e
      ∙ rw (hand_over-last id p (record r { body = kept_body (bytes ∷ chunks) }) e)

  handle-first :
      (name value : Text) (pairs : List (Text × Text)) (p : Pending) (events : List Event)
      → find_request id p ≡ none
      → handle_events (headers_of ((name, value) ∷ pairs) ++ events) p
        ≡ handle_events events (p ++ (id, store_all id ((name, value) ∷ pairs) new_request) ∷ [])
  unfolding headers_of handle_events handle_event on_header store_all
  handle-first name value pairs p events e =
      rw (update-new id (store_header id name value) p e)
        (handle-headers_of pairs p (store_header id name value new_request) events e)

  handle-fields :
      (request_id : Text) (r : ReadRequest) (p : Pending) (events : List Event)
      → All IsOrdinary r.headers
      → find_request id p ≡ none
      → handle_events (headers_of (header_pairs request_id r) ++ events) p
        ≡ handle_events events (p ++ (id, received request_id r []) ∷ [])
  unfolding header_pairs
  handle-fields request_id r p events h e =
      handle-first _ _ _ p events e
      ∙ ap (λ q. handle_events events (p ++ (id, q) ∷ [])) (store_all-header_pairs request_id r h)

  handle-request_events :
      (request_id : Text) (r : ReadRequest) (chunks : List Text) (p : Pending)
      → All IsOrdinary r.headers
      → find_request id p ≡ none
      → handle_events (request_events (header_pairs request_id r) chunks) p
        ≡ (p, on_request (received request_id r (kept_body chunks)) ∷ [])
  unfolding request_events received
  handle-request_events request_id r chunks p h e =
      handle-fields request_id r p (end_of chunks) h e
      ∙ handle-end_of chunks p (received request_id r []) e

find-received :
    (k : Text) (m : Map Text)
    → IsMap m
    → text_eq k (codes "host") ≡ false
    → text_eq k (codes ":scheme") ≡ false
    → find k (insert_all (without_host m) ((codes ":scheme", codes "https") ∷ [])) ≡ find k m
unfolding find
find-received k m distinct host scheme =
    find-insert_all k (without_host m) ((codes ":scheme", codes "https") ∷ [])
      (without_host-IsMap m distinct)
    ∙ ground (
      arith,
      find-without_host k m,
      host,
      scheme,
      text_eq_iff k (codes ":scheme"),
      text_eq_iff (codes ":scheme") k,
    )

-- When nghttp2 hands the agent a request of the server, with the fields that the server submits, on a
-- stream that has no request pending, and the names of its headers are not those that the session
-- keeps apart, the callback of `start` is called once, with the method, the path, the id of the request
-- and, but for the host and `:scheme`, the headers of the server's request, and with the pieces of the
-- body in order if the stream is not stream 1, else with no body; what else was pending stays.
pub handle_events-header_pairs :
    (id : ℕ) (request_id : Text) (r : ReadRequest) (chunks : List Text) (p : Pending)
    → IsMap r.headers
    → All IsOrdinary r.headers
    → find_request id p ≡ none
    → (req : Http2Request) × (handle_events (request_events id (header_pairs request_id r) chunks) p
        ≡ (p, on_request req ∷ []))
      × (req.stream_id ≡ id)
      × (req.method ≡ r.method)
      × (req.path ≡ r.path)
      × (req.request_id ≡ request_id)
      × (req.body ≡ (if id == 1 then [] else body_of id chunks))
      × ((k : Text)
          → text_eq k (codes "host") ≡ false
          → text_eq k (codes ":scheme") ≡ false
          → find k req.headers ≡ find k r.headers)
unfolding received kept_body
handle_events-header_pairs id request_id r chunks p distinct ordinary e = (
  received id request_id r (kept_body id chunks),
  handle-request_events id request_id r chunks p ordinary e,
  refl,
  refl,
  refl,
  refl,
  refl,
  λ k host scheme. find-received k r.headers distinct host scheme,
)
