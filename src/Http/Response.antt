-- ===== src/Http/Response.antt =====
-- `HTTPProxy::HTTPResponse`. The two JSON texts that a response may have come from nlohmann's library
-- and from the health handler.
use protogate.Base.{
  ℕ, zero, suc, ◌+◌, ◌/◌, ◌%◌, [], ◌∷◌, ◌++◌, none, some, length, ◌==◌, ltb, if◌then◌else◌, Text,
  Map, find, insert, codes,
}
use protogate.Http.Request.{header_lines}
use protogate.Http.Text.{crlf}

pub record HttpResponse : Type 0 where
  pub status_code : ℕ
  pub status_message : Text
  pub headers : Map Text
  pub body : Text

-- A number in decimal digits, of which it has at most as many as the fuel says.
unfoldable pub decimal_from : ℕ → ℕ → Text
decimal_from zero n = []
decimal_from (suc fuel) n =
    let front = decimal_from fuel (n / 10) in
    if ltb n 10 then (48 + n) ∷ [] else front ++ ((48 + n % 10) ∷ [])

-- `std::to_string` of a `size_t`, which has at most 20 digits.
abbrev pub decimal : ℕ → Text
decimal n = decimal_from 20 n

-- The length is added if the map has no key `content-length`; the responses of this file spell it
-- `Content-Length`.
unfoldable pub response_to_string : HttpResponse → Text
response_to_string r =
    codes "HTTP/1.1 "
    ++ (decimal r.status_code
        ++ (32
            ∷ (r.status_message
                ++ (crlf
                    ++ (header_lines r.headers
                        ++ ((elim (find (codes "content-length") r.headers) [
                          | some value ↦ []
                          | none ↦
                              if length r.body == 0
                              then []
                              else codes "Content-Length: " ++ (decimal (length r.body) ++ crlf)
                        ])
                            ++ (crlf ++ r.body)))))))

unfoldable pub error : ℕ → Text → HttpResponse
error code message = record {
  status_code = code;
  status_message = message;
  headers = (codes "Content-Type", codes "text/plain") ∷ [];
  body = message ++ (10 ∷ []);
}

module _ (forbidden_json : Text → Text) where
  unfoldable pub forbidden : Text → HttpResponse
  forbidden reason = record {
    status_code = 403;
    status_message = codes "Forbidden";
    headers = (codes "Content-Type", codes "application/json") ∷ [];
    body = forbidden_json reason ++ (10 ∷ []);
  }

-- What `handle_request` answers for `/health`.
unfoldable pub health_response : ℕ → Text → HttpResponse
health_response status_code health_json = record {
  status_code = status_code;
  status_message = if status_code == 200 then codes "OK" else codes "Service Unavailable";
  headers =
      insert (codes "Content-Length") (decimal (length health_json))
        (insert (codes "Content-Type") (codes "application/json") []);
  body = health_json;
}
