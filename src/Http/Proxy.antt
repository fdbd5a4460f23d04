-- ===== src/Http/Proxy.antt =====
-- `HTTPProxy::handle_request`, `match_tunnel` and `route_to_agent`, and the callback that turns the
-- agent's answer into the client's response.
use protogate.AgentConnection.{AgentConnection}
use protogate.AgentRegistry.{AgentRegistry, get_agent, is_connected}
use protogate.Allowlist.{Pton}
use protogate.Base.{
  ℕ, Bool, not, ◌||◌, List, [], ◌∷◌, ◌++◌, none, some, length, take, ◌==◌, if◌then◌else◌, Text,
  text_eq, codes,
}
use protogate.Http.Request.{HttpRequest, request_to_string}
use protogate.Http.Response.{
  HttpResponse, decimal, response_to_string, error, forbidden, health_response,
}
use protogate.Models.Tunnel.{Tunnel}
use protogate.Proxy.Connections.{validate_ip_allowlist}
use protogate.Storage.Cache.{Cache, get, for_each}

-- `hostname.compare(0, prefix.size(), prefix) == 0` for the id with a dot, or the whole name.
unfoldable pub is_for_host : Text → Text → Bool
is_for_host hostname tunnel_id =
    let prefix = tunnel_id ++ (46 ∷ []) in
    text_eq (take (length prefix) hostname) prefix || text_eq tunnel_id hostname

-- The visit, from the first pair on: the last that fits stays.
unfoldable pub search_host : Text → Text → List (Text × Tunnel) → Text
search_host hostname matched [] = matched
search_host hostname matched ((tunnel_id, tunnel) ∷ rest) =
    search_host hostname (if is_for_host hostname tunnel_id then tunnel_id else matched) rest

unfoldable pub match_tunnel : ℕ → Text → Cache Tunnel → Text
match_tunnel now hostname tunnels = search_host hostname [] (for_each now tunnels)

-- What a request comes to: a response at once, or a request to the agent of a tunnel.
pub data Routed : Type 0 where
  respond : HttpResponse → Routed
  forward : Text → AgentConnection → Text → Text → Routed

-- `"req_" + std::to_string(std::time(nullptr))`
unfoldable pub request_id_at : ℕ → Text
request_id_at seconds = codes "req_" ++ decimal seconds

unfoldable pub route_to_agent : ℕ → AgentRegistry → Text → HttpRequest → Routed
route_to_agent seconds registry tunnel_id request =
    if not (is_connected tunnel_id registry)
    then respond (error 503 (codes "Agent not connected"))
    else elim (get_agent tunnel_id registry) [
      | none ↦ respond (error 500 (codes "Agent connection error"))
      | some agent ↦ forward tunnel_id agent (request_id_at seconds) (request_to_string request)
    ]

-- The callback of the agent's request.
unfoldable pub on_response : Text → Bool → Text
on_response response failed =
    if failed then response_to_string (error 502 (codes "Bad Gateway")) else response

module _ (net : Pton) (forbidden_json : Text → Text) (health_status : ℕ) (health_json : Text) where
  unfoldable pub handle_request : ℕ → ℕ → Cache Tunnel → AgentRegistry → HttpRequest → Routed
  handle_request now seconds tunnels registry request =
      let tunnel_id = match_tunnel now request.host tunnels in
      if text_eq request.path (codes "/health")
      then respond (health_response health_status health_json)
      else if length tunnel_id == 0
      then respond (error 404 (codes "Tunnel not found"))
      else elim (get now tunnel_id tunnels) [
        | none ↦ respond (error 500 (codes "Tunnel configuration error"))
        | some tunnel ↦
            if not (validate_ip_allowlist net tunnel request.client_ip)
            then respond (forbidden forbidden_json (codes "IP address not allowed"))
            else route_to_agent seconds registry tunnel_id request
      ]
