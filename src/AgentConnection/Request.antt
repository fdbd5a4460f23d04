-- ===== src/AgentConnection/Request.antt =====
-- src/agent/agent_connection.cpp: how `send_http_request` reads the text of a request, and the header
-- fields and the body that it gives to nghttp2.
use protogate.Base.{
  ℕ, Bool, true, false, List, [], ◌∷◌, ◌++◌, none, some, length, take, ◌==◌, ltb, if◌then◌else◌,
  Text, Map, find, text_eq, codes,
}
use protogate.Http.Text.{getline, read_words, read_headers}

-- `<` of `std::string`
unfoldable pub text_lt : Text → Text → Bool
text_lt s [] = false
text_lt [] (y ∷ t) = true
text_lt (x ∷ s) (y ∷ t) = if x == y then text_lt s t else ltb x y

-- `headers[name] = value` on a `std::map`, which keeps its keys in order.
unfoldable pub ordered_insert : Text → Text → Map Text → Map Text
ordered_insert k v [] = (k, v) ∷ []
ordered_insert k v ((j, w) ∷ m) =
    if text_eq j k
    then (k, v) ∷ m
    else if text_lt k j
    then (k, v) ∷ (j, w) ∷ m
    else (j, w) ∷ ordered_insert k v m

pub record ReadRequest : Type 0 where
  pub method : Text
  pub path : Text
  pub headers : Map Text
  pub body : Text

-- Where there is no first line, it stays empty and nothing is left to read.
abbrev pub first_line : Text → Text × Text
first_line t = elim (getline t) [ none ↦ ([], []) | some parts ↦ parts ]

unfoldable pub read_request : Text → ReadRequest
read_request http_request =
    let (line, rest) = first_line http_request in
    let (method, (path, version)) = read_words line in
    let (headers, body) = read_headers ordered_insert (length rest) rest [] in
    record { method = method; path = path; headers = headers; body = body }

-- The fields but the host.
unfoldable pub without_host : Map Text → List (Text × Text)
without_host [] = []
without_host ((name, value) ∷ headers) =
    if text_eq name (codes "host")
    then without_host headers
    else (name, value) ∷ without_host headers

unfoldable pub header_pairs : Text → ReadRequest → List (Text × Text)
header_pairs request_id r =
    (codes ":method", r.method)
    ∷ (codes ":path", r.path)
    ∷ (codes ":scheme", codes "https")
    ∷ ((elim (find (codes "host") r.headers) [
      | none ↦ []
      | some host ↦ (codes ":authority", host) ∷ []
    ])
        ++ ((codes "x-tunnel-request-id", request_id) ∷ without_host r.headers))

-- The read callback of the body: what it copies into a buffer of this size, and whether it sets
-- `NGHTTP2_DATA_FLAG_EOF`. It reads from the front each time.
unfoldable pub read_callback : Text → ℕ → Text × Bool
read_callback body size = (take size body, true)
