-- ===== src/Tunnels.antt =====
-- src/api/tunnels_handler.h and .cpp: the management of tunnels. The JSON library and SHA-256 are
-- parameters: `parse` reads the body of a request, and a reply says what is printed. What Key Vault is
-- asked for is an outcome; its errors are ignored. The random numbers of a token, and the time of the
-- cache's clock and of the wall clock in nanoseconds, are arguments.
pub mod Tokens
pub mod Handlers
pub mod Examples
use protogate.AgentConnection.{AgentConnection}
use protogate.AgentRegistry.{AgentRegistry, get_agent, unregister_agent}
use protogate.Base.{
  ℕ, zero, suc, ◌+◌, ◌*◌, ◌/◌, ◌%◌, ◌^◌, Bool, true, false, not, ◌&&◌, ◌||◌, List, [], ◌∷◌, ◌++◌,
  map, Option, none, some, length, ltb, leb, ◌==◌, if◌then◌else◌, Text, text_eq, codes,
}
use protogate.Models.Tunnel.{Tunnel, TunnelProtocol, http, tcp, active}
use protogate.Security.Tokens.{AuthToken, TokenCache, old_key}
use protogate.Storage.Cache.{Cache, put_ttl, get, remove, for_each}

-- The members that the handlers change.
pub record Handler : Type 0 where
  pub tunnel_cache : Cache Tunnel
  pub token_cache : TokenCache
  pub agent_registry : AgentRegistry

-- What a handler answers: `set_error`, or the values that it prints, with status 201, 200 or 204.
pub data Reply : Type 0 where
  failed : ℕ → Text → Reply
  created : Tunnel → Text → ℕ → Reply
  shown : Tunnel → Reply
  listed : List Tunnel → Reply
  deleted : Reply
  rotated : Text → ℕ → Reply
  agents : Option AgentConnection → Reply

-- What is asked of Key Vault.
pub data VaultCall : Type 0 where
  set_secret : Text → Text → VaultCall
  delete_secret : Text → VaultCall

abbrev pub Done : Type 0
Done = Reply × (List VaultCall × Handler)

-- What the JSON library finds in a body; `bad_type` is a value of another
-- type than it is read as, the allowlist apart, which is read after the protocol is tested.
pub record Draft : Type 0 where
  pub tunnel_id : Text
  pub target_host : Text
  pub target_port : ℕ
  pub protocol : Text
  -- Nothing where an element is no text.
  pub ip_allowlist : Option (List Text)

pub data Parsed : Type 0 where
  parse_error : Parsed
  bad_type : Parsed
  draft : Draft → Parsed

abbrev pub year : ℕ
year = 31536000 * 1000000000

abbrev pub grace_period : ℕ
grace_period = 300 * 1000000000

-- The last digits of a number in base 16, so many of them.
unfoldable pub hex_digits : ℕ → ℕ → Text
hex_digits zero v = []
hex_digits (suc n) v =
    let front = hex_digits n (v / 16) in
    front ++ ((if ltb (v % 16) 10 then 48 + v % 16 else 87 + v % 16) ∷ [])

-- `std::setw(16) << random_value`, for each of the values.
unfoldable pub generate_token : List ℕ → Text
generate_token [] = []
generate_token (v ∷ values) = hex_digits 16 v ++ generate_token values

-- `std::isalnum` in the classic locale, and the two signs.
abbrev pub is_id_char : ℕ → Bool
is_id_char c =
    leb 48 c && leb c 57 || leb 65 c && leb c 90 || leb 97 c && leb c 122 || c == 45 || c == 95

unfoldable pub all_id_chars : Text → Bool
all_id_chars [] = true
all_id_chars (c ∷ t) = is_id_char c && all_id_chars t

-- `none`, or the error.
unfoldable pub validate_tunnel_config : Tunnel → Option Text
validate_tunnel_config t =
    if length t.tunnel_id == 0
    then some (codes "tunnel_id is required")
    else if length t.target_host == 0
    then some (codes "target_host is required")
    else if t.target_port == 0
    then some (codes "target_port must be between 1 and 65535")
    else if not (all_id_chars t.tunnel_id)
    then some (codes "tunnel_id can only contain alphanumeric characters, hyphens, and underscores")
    else none

abbrev pub protocol_of : Text → Option TunnelProtocol
protocol_of name =
    if text_eq name (codes "HTTP")
    then some http
    else if text_eq name (codes "TCP")
    then some tcp
    else none

-- The port is narrowed to 16 bits. The handler leaves `rate_limit_rpm` without a value: what stands in
-- the memory is the argument `default_rpm`.
abbrev pub tunnel_of : ℕ → ℕ → Draft → List Text → TunnelProtocol → Tunnel
tunnel_of wall default_rpm d ip_allowlist protocol = record {
  tunnel_id = d.tunnel_id;
  protocol = protocol;
  target_host = d.target_host;
  target_port = d.target_port % 2 ^ 16;
  ip_allowlist = ip_allowlist;
  rate_limit_rpm = default_rpm;
  created_at = wall;
  updated_at = wall;
  status = active;
}

abbrev pub secret_name : Text → Text
secret_name id = codes "tunnel-token-" ++ id

module _ (compute_token_hash : Text → Text) where
  abbrev pub auth_token : ℕ → Text → AuthToken
  auth_token wall token = record { token_hash = compute_token_hash token; expires_at = wall + year }

  -- What `handle_create_tunnel` does for a tunnel that is valid and new.
  unfoldable pub store_tunnel : ℕ → ℕ → List ℕ → Tunnel → Handler → Done
  store_tunnel now wall values t h =
      let token = generate_token values in
      (
        created t token (wall + year),
        (
          set_secret (secret_name t.tunnel_id) token ∷ [],
          record h {
            token_cache = put_ttl now t.tunnel_id (auth_token wall token) year h.token_cache;
            tunnel_cache = put_ttl now t.tunnel_id t year h.tunnel_cache;
          },
        ),
      )

  unfoldable pub create_checked : ℕ → ℕ → List ℕ → Tunnel → Handler → Done
  create_checked now wall values t h = elim (validate_tunnel_config t) [
    | some error ↦ (failed 400 error, ([], h))
    | none ↦ elim (get now t.tunnel_id h.tunnel_cache) [
      | some other ↦ (failed 409 (codes "Tunnel with this ID already exists"), ([], h))
      | none ↦ store_tunnel now wall values t h
    ]
  ]

  unfoldable pub handle_create_tunnel : (Text → Parsed) → ℕ → ℕ → ℕ → List ℕ → Text → Handler → Done
  handle_create_tunnel parse default_rpm now wall values body h = elim (parse body) [
    | parse_error ↦ (failed 400 (codes "Invalid JSON in request body"), ([], h))
    | bad_type ↦ (failed 500 (codes "Internal server error"), ([], h))
    | draft d ↦ elim (protocol_of d.protocol) [
      | none ↦ (failed 400 (codes "Invalid protocol. Must be HTTP or TCP"), ([], h))
      | some protocol ↦ elim d.ip_allowlist [
        | none ↦ (failed 500 (codes "Internal server error"), ([], h))
        | some ips ↦ create_checked now wall values (tunnel_of wall default_rpm d ips protocol) h
      ]
    ]
  ]

  unfoldable pub handle_rotate_token : ℕ → ℕ → List ℕ → Text → Handler → Done
  handle_rotate_token now wall values tunnel_id h =
      let token = generate_token values in
      elim (get now tunnel_id h.tunnel_cache) [
        | none ↦ (failed 404 (codes "Tunnel not found"), ([], h))
        | some t ↦ elim (get now tunnel_id h.token_cache) [
          | none ↦ (failed 500 (codes "Token not found in cache"), ([], h))
          | some old ↦ (
            rotated token (wall + year),
            (
              set_secret (secret_name tunnel_id) token ∷ [],
              record h {
                token_cache =
                    put_ttl now (old_key tunnel_id) old grace_period
                      (put_ttl now tunnel_id (auth_token wall token) year h.token_cache);
              },
            ),
          )
        ]
      ]

unfoldable pub handle_list_tunnels : ℕ → Handler → Reply
handle_list_tunnels now h = listed (map (λ entry. entry.1) (for_each now h.tunnel_cache))

unfoldable pub handle_get_tunnel : ℕ → Text → Handler → Reply
handle_get_tunnel now tunnel_id h = elim (get now tunnel_id h.tunnel_cache) [
  | none ↦ failed 404 (codes "Tunnel not found")
  | some t ↦ shown t
]

unfoldable pub handle_delete_tunnel : ℕ → Text → Handler → Done
handle_delete_tunnel now tunnel_id h = elim (get now tunnel_id h.tunnel_cache) [
  | none ↦ (failed 404 (codes "Tunnel not found"), ([], h))
  | some t ↦ (
    deleted,
    (
      delete_secret (secret_name tunnel_id) ∷ [],
      record {
        agent_registry = unregister_agent tunnel_id h.agent_registry;
        tunnel_cache = (remove tunnel_id h.tunnel_cache).0;
        token_cache = (remove tunnel_id h.token_cache).0;
      },
    ),
  )
]

unfoldable pub handle_get_tunnel_agents : ℕ → Text → Handler → Reply
handle_get_tunnel_agents now tunnel_id h = elim (get now tunnel_id h.tunnel_cache) [
  | none ↦ failed 404 (codes "Tunnel not found")
  | some t ↦ agents (get_agent tunnel_id h.agent_registry)
]
