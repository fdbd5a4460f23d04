-- ===== src/Http/Status.antt =====
-- Which requests reach an agent, and which tunnel a host name finds.
use protogate.AgentConnection.{AgentConnection}
use protogate.AgentRegistry.{AgentRegistry, get_agent, is_connected}
use protogate.Allowlist.Access.{AddressOf, TextCovers}
use protogate.Allowlist.{Pton, IpType}
use protogate.Base.{
  ℕ, ◌≡◌, refl, true, Bool-cases, List, [], ◌∷◌, arith, some, Option-cases, ◌⊎◌, inl, inr, Any,
  Text, All, subst, sym, ◌++◌, ◌∙◌, append_assoc, length, take, drop, text_eq, text_eq_prefix,
  text_eq_iff, false, ◌==◌,
}
use protogate.Http.Proxy.{
  is_for_host, search_host, match_tunnel, forward, route_to_agent, handle_request,
}
use protogate.Http.Request.{HttpRequest, request_to_string}
use protogate.Models.Tunnel.{Tunnel}
use protogate.Proxy.Access.{validate_ip_allowlist-TextCovers}
use protogate.Proxy.Connections.{validate_ip_allowlist}
use protogate.Storage.Cache.{Cache, get, for_each}

routed :
    (seconds : ℕ) (registry : AgentRegistry) (tunnel_id : Text) (request : HttpRequest)
    (id rid text : Text) (agent : AgentConnection)
    → route_to_agent seconds registry tunnel_id request ≡ forward id agent rid text
    → (id ≡ tunnel_id)
      × ((get_agent tunnel_id registry ≡ some agent)
          × ((is_connected tunnel_id registry ≡ true) × (text ≡ request_to_string request)))
unfolding route_to_agent
routed seconds registry tunnel_id request id rid text agent e =
    elim (Option-cases (get_agent tunnel_id registry)) [
      | inl gone ↦ absurd (ground (arith, e, gone))
      | inr (a, there) ↦ (
        ground (arith, e, there),
        (ground (arith, e, there), (ground (arith, e, there), ground (arith, e, there))),
      )
    ]

-- The pair of a tunnel that fits the host, under this id.
abbrev pub Fits : Text → Text → Text × Tunnel → Type 0
Fits hostname id (tunnel_id, tunnel) = (tunnel_id ≡ id) × (is_for_host hostname tunnel_id ≡ true)

search_host-Fits :
    (hostname matched : Text) (pairs : List (Text × Tunnel))
    → ((search_host hostname matched pairs ≡ matched)
        × All (λ pair. is_for_host hostname pair.0 ≡ false) pairs)
      ⊎ Any (Fits hostname (search_host hostname matched pairs)) pairs
unfolding search_host
search_host-Fits hostname matched [] = inl (refl, tt)
search_host-Fits hostname matched ((id, tunnel) ∷ pairs) =
    elim (Bool-cases (is_for_host hostname id)) [
      | inl fits ↦ elim (search_host-Fits hostname id pairs) [
        | inl (stays, others) ↦ inr (inl (ground (arith, fits, stays), fits))
        | inr later ↦
            inr (inr (subst (λ m. Any (Fits hostname m) pairs) (ground (arith, fits)) later))
      ]
      | inr other ↦ elim (search_host-Fits hostname matched pairs) [
        | inl (stays, others) ↦ inl (ground (arith, other, stays), (other, others))
        | inr later ↦
            inr (inr (subst (λ m. Any (Fits hostname m) pairs) (ground (arith, other)) later))
      ]
    ]

-- The id that a host name finds is that of a live tunnel, and is the name itself or stands at the front
-- of the name with a dot behind it; or what is found is empty, and no live tunnel's id is so.
pub match_tunnel-Fits :
    (now : ℕ) (hostname : Text) (tunnels : Cache Tunnel)
    → ((match_tunnel now hostname tunnels ≡ [])
        × All (λ pair. is_for_host hostname pair.0 ≡ false) (for_each now tunnels))
      ⊎ Any (Fits hostname (match_tunnel now hostname tunnels)) (for_each now tunnels)
unfolding match_tunnel
match_tunnel-Fits now hostname tunnels = search_host-Fits hostname [] (for_each now tunnels)

-- The host name is the tunnel's id, or this with a dot and a domain behind it.
abbrev pub IsHostOf : Text → Text → Type 0
IsHostOf host id = (host ≡ id) ⊎ ((domain : Text) × (host ≡ id ++ (46 ∷ domain)))

is_for_host_sound : (host id : Text) → is_for_host host id ≡ true → IsHostOf host id
unfolding is_for_host
is_for_host_sound host id e =
    let prefix = id ++ (46 ∷ []) in
    elim (Bool-cases (text_eq (take (length prefix) host) prefix)) [
      | inl dotted ↦
          let rest = drop (length prefix) host in
          inr (rest, text_eq_prefix prefix host dotted ∙ append_assoc id (46 ∷ []) rest)
      | inr other ↦ inl (sym ((text_eq_iff id host).0 (ground (arith, e, other))))
    ]

Any-Fits :
    (host id : Text) (pairs : List (Text × Tunnel)) → Any (Fits host id) pairs → IsHostOf host id
Any-Fits host id [] none = absurd none
Any-Fits host id ((key, tunnel) ∷ pairs) (inl (same, fits)) =
    subst (IsHostOf host) same (is_for_host_sound host key fits)
Any-Fits host id ((key, tunnel) ∷ pairs) (inr later) = Any-Fits host id pairs later

match_tunnel-IsHostOf :
    (now : ℕ) (host : Text) (tunnels : Cache Tunnel)
    → (length (match_tunnel now host tunnels) == 0) ≡ false
    → IsHostOf host (match_tunnel now host tunnels)
match_tunnel-IsHostOf now host tunnels some_id = elim (match_tunnel-Fits now host tunnels) [
  | inl (empty, others) ↦ absurd (ground (arith, some_id, empty))
  | inr fits ↦ Any-Fits host (match_tunnel now host tunnels) (for_each now tunnels) fits
]

-- The tunnel has no allowlist, or one of its texts covers the address.
abbrev pub LetsIn : Pton → IpType → Text → Tunnel → Type 0
LetsIn net type b tunnel =
    (tunnel.ip_allowlist ≡ []) ⊎ Any (TextCovers net type b) tunnel.ip_allowlist

validate-LetsIn :
    (net : Pton) (tunnel : Tunnel) (client_ip : Text) (list : List Text) (type : IpType) (b : Text)
    → tunnel.ip_allowlist ≡ list
    → AddressOf net type client_ip b
    → validate_ip_allowlist net tunnel client_ip ≡ true
    → LetsIn net type b tunnel
validate-LetsIn net tunnel client_ip [] type b same address valid = inl same
validate-LetsIn net tunnel client_ip (text ∷ texts) type b same address valid = inr (
    subst (Any (TextCovers net type b)) (sym same)
      (validate_ip_allowlist-TextCovers net tunnel client_ip text texts type b same address valid))

-- What is known of a request that goes to an agent: the host, the agent, and the tunnel.
abbrev pub IsAdmitted :
    Pton
    → IpType
    → Text
    → ℕ
    → Cache Tunnel
    → AgentRegistry
    → HttpRequest
    → Text
    → AgentConnection
    → Type 0
IsAdmitted net type b now tunnels registry request id agent =
    IsHostOf request.host id
    × (get_agent id registry ≡ some agent)
    × (is_connected id registry ≡ true)
    × ((tunnel : Tunnel) × (get now id tunnels ≡ some tunnel) × LetsIn net type b tunnel)

-- A request from an address goes to an agent only if its host is the id of a tunnel or has the id and
-- a dot in front, the cache holds the tunnel, that tunnel has no allowlist or one of the allowlist's
-- texts covers the address, and the agent that gets it is registered for the tunnel and connected; the
-- agent gets the text of the whole request.
pub handle_request-IsAdmitted :
    (net : Pton) (forbidden_json : Text → Text) (status : ℕ) (json : Text) (now seconds : ℕ)
    (tunnels : Cache Tunnel) (registry : AgentRegistry) (request : HttpRequest) (id rid text : Text)
    (agent : AgentConnection) (type : IpType) (b : Text)
    → AddressOf net type request.client_ip b
    → handle_request net forbidden_json status json now seconds tunnels registry request
      ≡ forward id agent rid text
    → IsAdmitted net type b now tunnels registry request id agent
      × (text ≡ request_to_string request)
unfolding handle_request
handle_request-IsAdmitted net forbidden_json status json now seconds tunnels registry request id rid
      text agent type b address e =
    let tunnel_id = match_tunnel now request.host tunnels in
    elim (Option-cases (get now tunnel_id tunnels)) [
      | inl gone ↦ absurd (ground (arith, e, gone))
      | inr (tunnel, found) ↦
          elim (Bool-cases (validate_ip_allowlist net tunnel request.client_ip)) [
            | inr blocked ↦ absurd (ground (arith, e, found, blocked))
            | inl valid ↦
                let (same, (there, (up, whole))) =
                  routed seconds registry tunnel_id request id rid text agent
                    (ground (arith, e, found, valid)) in
                let host =
                  match_tunnel-IsHostOf now request.host tunnels (ground (arith, e, found)) in
                let let_in =
                  validate-LetsIn net tunnel request.client_ip tunnel.ip_allowlist type b refl
                    address valid in
                (
                  (
                    subst (IsHostOf request.host) (sym same) host,
                    rw same there,
                    rw same up,
                    (tunnel, rw same found, let_in),
                  ),
                  whole,
                )
          ]
    ]
