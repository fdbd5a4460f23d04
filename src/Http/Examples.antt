-- ===== src/Http/Examples.antt =====
-- Requests and responses at concrete texts.
use protogate.AgentConnection.{AgentConnection, new_connection}
use protogate.AgentRegistry.{AgentRegistry, get_agent, is_connected}
use protogate.Base.{
  ℕ, ◌≡◌, refl, arith, true, false, List, [], ◌∷◌, ◌++◌, some, none, codes, Text, Bool, Map, IsMap,
  find, All, ◌⊎◌, Any,
}
use protogate.Http.Proxy.{
  is_for_host, match_tunnel, Routed, respond, forward, request_id_at, handle_request, on_response,
}
use protogate.Http.Request.{HttpRequest, add_header, parse_request, request_to_string}
use protogate.Http.Response.{HttpResponse, error, forbidden, health_response, response_to_string}
use protogate.Http.Text.{read_headers}
use protogate.Http.RoundTrip.{IsRequest, parse_request-request_to_string}
use protogate.Http.Status.{IsAdmitted, handle_request-IsAdmitted}
use protogate.Allowlist.Examples.{raw_pton}
use protogate.Allowlist.{ipv4, c_str}
use protogate.Proxy.Examples.{no_pton, tunnels, guarded}
use protogate.Storage.Cache.{get, for_each}

abbrev request : HttpRequest
request = record {
  method = codes "POST";
  path = codes "/a?b";
  version = codes "HTTP/1.1";
  host = codes "db.example.com";
  client_ip = codes "10.0.0.9";
  headers = (codes "host", codes "db.example.com") ∷ (codes "x-id", codes "7 8") ∷ [];
  body = 13 ∷ 10 ∷ codes "hello";
}

request-IsRequest : IsRequest request
unfolding protogate.Http.Text.trim protogate.Http.Text.lower find protogate.Base.text_eq
request-IsRequest = ground arith

parse_request-request_to_string_example :
    parse_request (request_to_string request) ≡ some (record request { client_ip = [] })
unfolding find protogate.Base.text_eq
parse_request-request_to_string_example = parse_request-request_to_string request request-IsRequest

-- A request without the blank after the colon, and with a header in capitals.
text_test :
    parse_request (
      codes "GET  / HTTP/1.0"
      ++ (13 ∷ 10 ∷ (codes "Host:a" ++ (10 ∷ (codes "junk" ++ (13 ∷ 10 ∷ 13 ∷ 10 ∷ codes "x"))))))
    ≡ some (record {
      method = codes "GET";
      path = codes "/";
      version = codes "HTTP/1.0";
      host = codes "a";
      client_ip = [];
      headers = (codes "host", codes "a") ∷ [];
      body = codes "x";
    })
unfolding parse_request protogate.Http.Text.getline protogate.Http.Text.split_at
    protogate.Http.Text.read_words protogate.Http.Text.read_headers protogate.Http.Text.read_word
    protogate.Base.text_eq protogate.Http.Text.pop_cr protogate.Http.Text.header_of
    protogate.Http.Text.lower protogate.Base.insert protogate.Http.Text.trim
text_test = refl

error_test :
    response_to_string (error 404 (codes "no"))
    ≡ codes "HTTP/1.1 404 no"
      ++ (13
          ∷ 10
          ∷ (codes "Content-Type: text/plain"
              ++ (13
                  ∷ 10
                  ∷ (codes "Content-Length: 3"
                      ++ (13 ∷ 10 ∷ 13 ∷ 10 ∷ (codes "no" ++ (10 ∷ [])))))))
unfolding response_to_string protogate.Http.Response.decimal_from error
    protogate.Http.Request.header_lines find protogate.Base.text_eq
error_test = refl

-- The health response has its length twice.
health_test :
    response_to_string (health_response 200 (codes "{}"))
    ≡ codes "HTTP/1.1 200 OK"
      ++ (13
          ∷ 10
          ∷ (codes "Content-Type: application/json"
              ++ (13
                  ∷ 10
                  ∷ (codes "Content-Length: 2"
                      ++ (13
                          ∷ 10
                          ∷ (codes "Content-Length: 2" ++ (13 ∷ 10 ∷ 13 ∷ 10 ∷ codes "{}")))))))
unfolding response_to_string protogate.Http.Response.decimal_from health_response
    protogate.Http.Request.header_lines protogate.Base.insert protogate.Base.text_eq find
health_test = refl

abbrev db_agent : AgentConnection
db_agent = new_connection (codes "db")

abbrev registry : AgentRegistry
registry = record { max_agents = 50; agents = (codes "db", db_agent) ∷ [] }

-- A request from an address that the tunnel's allowlist covers.
abbrev from_abcd : HttpRequest
from_abcd = record request { client_ip = codes "abcd" }

forwarded :
    handle_request raw_pton (λ reason. reason) 200 (codes "{}") 9 1700 guarded registry from_abcd
    ≡ forward (codes "db") db_agent (codes "req_1700") (request_to_string request)
unfolding handle_request protogate.Base.text_eq match_tunnel protogate.Http.Proxy.search_host
    for_each is_for_host get find protogate.Proxy.Connections.validate_ip_allowlist
    protogate.Http.Proxy.route_to_agent is_connected get_agent new_connection request_id_at
    protogate.Http.Response.decimal_from protogate.Allowlist.Lists.from_cidr_list
    protogate.Allowlist.Parse.parse_cidr protogate.Allowlist.parse_ipv4 c_str
    protogate.Allowlist.is_allowed protogate.Allowlist.any_match protogate.Allowlist.matches_cidr
    protogate.Allowlist.zero_host_bits protogate.Allowlist.equal_below
    protogate.Http.Request.request_to_string
forwarded = refl

handle_request-IsAdmitted_example :
    IsAdmitted raw_pton ipv4 (codes "abcd") 9 guarded registry from_abcd (codes "db") db_agent
    × (request_to_string request ≡ request_to_string from_abcd)
unfolding c_str
handle_request-IsAdmitted_example =
    handle_request-IsAdmitted raw_pton (λ reason. reason) 200 (codes "{}") 9 1700 guarded registry
      from_abcd (codes "db") (codes "req_1700") (request_to_string request) db_agent ipv4
      (codes "abcd") refl forwarded

-- Two requests within a second have the same id.
same_id_test : request_id_at 1700 ≡ codes "req_1700"
unfolding request_id_at protogate.Http.Response.decimal_from
same_id_test = refl

unknown_test :
    handle_request no_pton
      (λ reason. reason)
      200
      (codes "{}")
      9
      1700
      tunnels
      registry
      (record request { host = codes "dbx.example.com" })
    ≡ respond (error 404 (codes "Tunnel not found"))
unfolding handle_request protogate.Base.text_eq match_tunnel protogate.Http.Proxy.search_host
    for_each is_for_host
unknown_test = refl

bad_gateway_test : on_response [] true ≡ response_to_string (error 502 (codes "Bad Gateway"))
unfolding response_to_string on_response
bad_gateway_test = refl
