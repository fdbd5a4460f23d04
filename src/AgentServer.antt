-- ===== src/AgentServer.antt =====
-- src/server/agent_server.cpp: what the server makes of an agent's request once it is read: the
-- headers, the token, the tunnels of its TCP ports, and the connection. The sockets and `std::stoi`
-- are not modelled: `stoi` is a parameter, which throws where it gives nothing, and an
-- int below zero is the number that it is modulo 2 ^ 32.
pub mod Header
pub mod Admission
pub mod Hello
pub mod Examples
pub mod Presented
use protogate.AgentConnection.{AgentConnection, Outcome, new_connection, start}
use protogate.AgentRegistry.{
  AgentRegistry, register_agent, unregister_agent, is_connected, is_full, calls_back,
}
use protogate.Base.{
  ℕ, zero, suc, ◌+◌, ◌*◌, ◌%◌, ◌^◌, Bool, true, false, List, [], ◌∷◌, ◌++◌, Option, none, some,
  length, drop, ◌==◌, if◌then◌else◌, Text, codes,
}
use protogate.Http.Response.{decimal}
use protogate.Http.Text.{split_at, getline, pop_cr, trim, is_last}
use protogate.Models.Tunnel.{Tunnel, tcp, active}
use protogate.Security.Tokens.{
  TokenCache, has_prefix, validate, success, invalid_format, invalid_token,
}
use protogate.Storage.Cache.{Cache, get, put_ttl}

pub record AuthHeaders : Type 0 where
  pub authorization : Text
  pub tunnel_id_header : Text
  pub tcp_ports : Text

abbrev pub no_headers : AuthHeaders
no_headers = record { authorization = []; tunnel_id_header = []; tcp_ports = [] }

-- The body of the loop. `tunnel_id_header` is never used.
unfoldable pub auth_line : Text → AuthHeaders → AuthHeaders
auth_line text h =
    let line = pop_cr text in
    if has_prefix (codes "Authorization: ") line
    then record h { authorization = drop 15 line }
    else if has_prefix (codes "X-Tunnel-ID: ") line
    then record h { tunnel_id_header = drop 13 line }
    else if has_prefix (codes "X-TCP-Ports: ") line
    then record h { tcp_ports = drop 13 line }
    else h

-- The loop over the lines; each turn takes at least one character.
unfoldable pub auth_lines : ℕ → Text → AuthHeaders → AuthHeaders
auth_lines zero t h = h
auth_lines (suc n) t h = elim (getline t) [
  | none ↦ h
  | some (line, rest) ↦ elim (is_last line) [
    | true ↦ h
    | false ↦ auth_lines n rest (auth_line line h)
  ]
]

-- `std::getline(port_stream, port_str, ',')`, until nothing is left.
unfoldable pub port_texts : ℕ → Text → List Text
port_texts zero t = []
port_texts (suc n) t =
    if length t == 0
    then []
    else elim (split_at 44 t) [ none ↦ t ∷ [] | some (port, rest) ↦ port ∷ port_texts n rest ]

abbrev pub day : ℕ
day = 86400 * 1000000000

-- The tunnel of one port. The allowlist stays empty.
abbrev pub tcp_tunnel : ℕ → Text → Tunnel → Tunnel
tcp_tunnel wall tunnel_id existing = record {
  tunnel_id = tunnel_id;
  protocol = tcp;
  target_host = existing.target_host;
  target_port = existing.target_port;
  ip_allowlist = [];
  rate_limit_rpm = 0;
  created_at = wall;
  updated_at = wall;
  status = active;
}

abbrev pub tcp_tunnel_key : Text → ℕ → Text
tcp_tunnel_key tunnel_id port = tunnel_id ++ (codes ":tcp:" ++ decimal port)

module _ (stoi : Text → Option ℕ) (now wall : ℕ) (tunnel_id : Text) (existing : Tunnel) where
  -- The tunnels, and whether the loop ends without an exception.
  unfoldable pub register_ports : List Text → Cache Tunnel → Bool × Cache Tunnel
  register_ports [] tunnels = (true, tunnels)
  register_ports (text ∷ texts) tunnels = elim (length (trim text) == 0) [
    | true ↦ register_ports texts tunnels
    | false ↦ elim (stoi (trim text)) [
      | none ↦ (false, tunnels)
      | some port ↦ register_ports texts (
          put_ttl now (tcp_tunnel_key tunnel_id (port % 2 ^ 16))
            (tcp_tunnel wall tunnel_id existing) day tunnels)
    ]
  ]

-- What the server keeps.
pub record Server : Type 0 where
  pub tunnel_cache : Cache Tunnel
  pub agent_registry : AgentRegistry

-- A response with its status, or an agent's connection for a tunnel, or an exception that nothing
-- catches.
pub data Authenticated : Type 0 where
  unauthorized : Authenticated
  conflict : Authenticated
  accepted : Text → List Outcome → Authenticated
  uncaught : Authenticated

-- The tunnels of the ports, if there are any, and if the agent's tunnel is known.
unfoldable pub add_ports :
    (Text → Option ℕ) → ℕ → ℕ → Text → Text → Cache Tunnel → Bool × Cache Tunnel
add_ports stoi now wall tunnel_id ports tunnels =
    if length ports == 0 then (true, tunnels) else elim (get now tunnel_id tunnels) [
      | none ↦ (true, tunnels)
      | some existing ↦
          register_ports stoi now wall tunnel_id existing (port_texts (length ports) ports) tunnels
    ]

-- The connection is registered and started, whether or not the registry takes it; its callback takes
-- what the registry has for the tunnel out again.
unfoldable pub connect_agent : ℕ → Bool → Text → AgentRegistry → List Outcome × AgentRegistry
connect_agent now ok tunnel_id registry =
    let (out, agent) = start now ok (new_connection tunnel_id) in
    let registered = (register_agent tunnel_id agent registry).1 in
    (out, if calls_back out then unregister_agent tunnel_id registered else registered)

unfoldable pub on_agent_disconnect : Text → AgentRegistry → AgentRegistry
on_agent_disconnect tunnel_id registry = unregister_agent tunnel_id registry

module _ (compute_token_hash : Text → Text) (stoi : Text → Option ℕ) where
  unfoldable pub admit : ℕ → ℕ → Bool → Text → Text → Server → Authenticated × Server
  admit now wall ok tunnel_id ports s =
      let (ends, tunnels) = add_ports stoi now wall tunnel_id ports s.tunnel_cache in
      let (out, registry) = connect_agent now ok tunnel_id s.agent_registry in
      if is_connected tunnel_id s.agent_registry
      then (conflict, s)
      else if ends
      then (accepted tunnel_id out, record { tunnel_cache = tunnels; agent_registry = registry })
      else (uncaught, record s { tunnel_cache = tunnels })

  unfoldable pub authenticate : ℕ → ℕ → Bool → Text → TokenCache → Server → Authenticated × Server
  authenticate now wall ok auth_data tokens s =
      let h = auth_lines (length auth_data) auth_data no_headers in
      elim (validate compute_token_hash now wall h.authorization tokens) [
        | success tunnel_id ↦ admit now wall ok tunnel_id h.tcp_ports s
        | invalid_format ↦ (unauthorized, s)
        | invalid_token ↦ (unauthorized, s)
      ]

-- `do_accept`: a new agent is turned away with status 503 while the registry is full.
unfoldable pub turns_away : Server → Bool
turns_away s = is_full s.agent_registry
