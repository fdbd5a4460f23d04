-- ===== src/TcpServer.antt =====
-- src/server/tcp_server.h, tcp_server.cpp: the tunnel of a TCP port, and the counts of connections.
-- The sockets are not modelled. `std::stoi` is a parameter, which throws where it gives nothing; an
-- int below zero is the number that it is modulo 2 ^ 32.
pub mod Ports
pub mod Accept
pub mod Registered
pub mod Examples
use protogate.Base.{
  ℕ, ◌+◌, ◌-◌, ◌%◌, ◌^◌, Bool, true, false, ◌&&◌, List, [], ◌∷◌, Option, none, some, length, drop,
  ◌==◌, if◌then◌else◌, Text, codes,
}
use protogate.Models.Tunnel.{Tunnel, TunnelProtocol, tcp, http}
use protogate.Security.Tokens.{has_prefix}
use protogate.Storage.Cache.{Cache, for_each}

pub record PortListener : Type 0 where
  pub port : ℕ
  pub connection_count : ℕ

-- The tunnels found so far, and the count over all ports.
pub record TcpServer : Type 0 where
  pub port_to_tunnel : List (ℕ × Text)
  pub active_connection_count : ℕ

-- `find` of `port_to_tunnel_`.
unfoldable pub find_port : ℕ → List (ℕ × Text) → Option Text
find_port port [] = none
find_port port ((p, id) ∷ ports) = if p == port then some id else find_port port ports

-- What stands behind the first `:tcp:`.
unfoldable pub behind_tcp : Text → Option Text
behind_tcp [] = none
behind_tcp (c ∷ t) = if has_prefix (codes ":tcp:") (c ∷ t) then some (drop 4 t) else behind_tcp t

abbrev pub is_tcp : TunnelProtocol → Bool
is_tcp tcp = true
is_tcp http = false

module _ (stoi : Text → Option ℕ) where
  -- The key ends with the port.
  unfoldable pub names_port : ℕ → Text → Bool
  names_port port key = elim (behind_tcp key) [
    | none ↦ false
    | some port_str ↦ elim (stoi port_str) [ none ↦ false | some n ↦ n % 2 ^ 16 == port ]
  ]

  -- The visit of the tunnels: the last that fits stays.
  unfoldable pub visit_port : ℕ → Text → List (Text × Tunnel) → Text
  visit_port port matched [] = matched
  visit_port port matched ((key, tunnel) ∷ pairs) =
      visit_port port
        (if names_port port key && is_tcp tunnel.protocol then tunnel.tunnel_id else matched) pairs

  -- The tunnel's id, or the empty text, and what is kept for the next time.
  unfoldable pub find_tunnel_for_port : ℕ → ℕ → Cache Tunnel → TcpServer → Text × TcpServer
  find_tunnel_for_port now port tunnels s = elim (find_port port s.port_to_tunnel) [
    | some id ↦ (id, s)
    | none ↦
        let matched = visit_port port [] (for_each now tunnels) in
        if length matched == 0
        then ([], s)
        else (matched, record s { port_to_tunnel = (port, matched) ∷ s.port_to_tunnel })
  ]

-- What becomes of a connection: the accept failed, or it is closed at once, or it is handed to the
-- proxy for a tunnel.
pub data Accepted : Type 0 where
  accept_error : Accepted
  no_tunnel : Accepted
  handed : Text → Accepted

-- `ok` says that the accept did not fail, and `throws` whether `create_connection` of the proxy
-- throws, which takes the counts back. Whether another accept is started is not modelled.
unfoldable pub handle_accept :
    (Text → Option ℕ)
    → ℕ
    → Bool
    → Bool
    → Cache Tunnel
    → PortListener
    → TcpServer
    → Accepted × PortListener × TcpServer
handle_accept stoi now ok throws tunnels listener s =
    let (tunnel_id, found) = find_tunnel_for_port stoi now listener.port tunnels s in
    let counted = record listener { connection_count = listener.connection_count + 1 } in
    let counted_all = record found {
      active_connection_count = found.active_connection_count + 1;
    } in
    if ok
    then if length tunnel_id == 0
      then (no_tunnel, listener, found)
      else if throws
      then (
        handed tunnel_id,
        record counted { connection_count = counted.connection_count - 1 },
        record counted_all { active_connection_count = counted_all.active_connection_count - 1 },
      )
      else (handed tunnel_id, counted, counted_all)
    else (accept_error, listener, s)

-- A count that is at zero stays there.
unfoldable pub handle_connection_closed : PortListener → TcpServer → PortListener × TcpServer
handle_connection_closed listener s = (
  record listener { connection_count = listener.connection_count - 1 },
  record s { active_connection_count = s.active_connection_count - 1 },
)
