-- ===== src/Http/Request.antt =====
-- `HTTPProxy::HTTPRequest` with `parse_request` and `to_string`. The headers are a map; C++ leaves
-- the order in which `to_string` writes them open.
use protogate.Base.{
  ◌++◌, [], ◌∷◌, Option, none, some, length, if◌then◌else◌, Text, Map, insert, text_eq, codes,
}
use protogate.Http.Text.{getline, pop_cr, read_words, read_headers}

pub record HttpRequest : Type 0 where
  pub method : Text
  pub path : Text
  pub version : Text
  pub host : Text
  pub client_ip : Text
  pub headers : Map Text
  pub body : Text

-- `request.headers[name] = value`, and the host besides.
abbrev pub add_header : Text → Text → Map Text × Text → Map Text × Text
add_header name value (headers, host) =
    (insert name value headers, if text_eq name (codes "host") then value else host)

unfoldable pub parse_request : Text → Option HttpRequest
parse_request buffer = elim (getline buffer) [
  | none ↦ none
  | some (line, rest) ↦
      let (method, (path, version)) = read_words (pop_cr line) in
      let ((headers, host), body) = read_headers add_header (length rest) rest ([], []) in
      some (record {
        method = method;
        path = path;
        version = version;
        host = host;
        client_ip = [];
        headers = headers;
        body = body;
      })
]

unfoldable pub header_lines : Map Text → Text
header_lines [] = []
header_lines ((name, value) ∷ headers) =
    name ++ (58 ∷ 32 ∷ (value ++ (13 ∷ 10 ∷ header_lines headers)))

unfoldable pub request_to_string : HttpRequest → Text
request_to_string r =
    r.method
    ++ (32
        ∷ (r.path
            ++ (32 ∷ (r.version ++ (13 ∷ 10 ∷ (header_lines r.headers ++ (13 ∷ 10 ∷ r.body)))))))
