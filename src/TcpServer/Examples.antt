-- ===== src/TcpServer/Examples.antt =====
-- A TCP port of an agent, and its connections.
use protogate.AgentServer.{register_ports}
use protogate.Base.{
  ℕ, ◌+◌, ◌*◌, ◌-◌, ◌≡◌, refl, arith, Bool, true, false, List, [], ◌∷◌, some, Option, codes, Text,
  inl, inr,
}
use protogate.Proxy.Examples.{db, tunnels}
use protogate.Storage.Cache.{Cache}
use protogate.Models.Tunnel.{Tunnel}
use protogate.TcpServer.Accept.{register_ports-handle_accept}
use protogate.TcpServer.{
  PortListener, TcpServer, behind_tcp, names_port, find_tunnel_for_port, handle_accept, handed,
  no_tunnel, handle_connection_closed, accept_error,
}

-- Reads decimal digits.
abbrev digits_from : ℕ → Text → ℕ
digits_from n [] = n
digits_from n (c ∷ t) = digits_from (10 * n + (c - 48)) t

abbrev digits : Text → Option ℕ
digits t = some (digits_from 0 t)

abbrev port_texts : List Text
port_texts = codes "" ∷ codes " 80" ∷ []

abbrev listener : PortListener
listener = record { port = 80; connection_count = 0 }

abbrev fresh : TcpServer
fresh = record { port_to_tunnel = []; active_connection_count = 0 }

abbrev registered : Cache Tunnel
registered = (register_ports digits 9 9 (codes "db") db port_texts tunnels).1

abbrev empty : Cache Tunnel
empty = record { entries = []; default_ttl = 50 }

register_ports-handle_accept_example :
    let (first, left, found) = handle_accept digits 20 true false registered listener fresh in
    (first ≡ handed (codes "db"))
    × ((handle_accept digits 90000000000000 true false empty left found).0 ≡ handed (codes "db"))
unfolding register_ports protogate.Http.Text.trim protogate.Security.Tokens.is_blank
    protogate.Security.Tokens.trim_left protogate.Security.Tokens.trim_right
    protogate.Storage.Cache.for_each protogate.Storage.Cache.live names_port behind_tcp
    protogate.Security.Tokens.has_prefix protogate.Base.text_eq protogate.Http.Response.decimal_from
    protogate.TcpServer.find_port
register_ports-handle_accept_example =
    register_ports-handle_accept digits 9 9 20 90000000000000 (codes "db") db port_texts tunnels
      empty false listener fresh refl (omega arith) (refl, (refl, tt)) (omega arith) (omega arith)
      (inr (inl (80, refl, refl, omega arith))) refl ((λ fit. refl), tt) refl

-- No tunnel is behind another port, and a failed accept leaves the counts.
turned_away_test :
    ((handle_accept digits 20 true false registered (record listener { port = 81 }) fresh).0
      ≡ no_tunnel)
    × (handle_accept digits 20 false false registered listener fresh
        ≡ (accept_error, listener, fresh))
unfolding handle_accept find_tunnel_for_port register_ports protogate.Http.Text.trim
    protogate.Security.Tokens.is_blank protogate.Security.Tokens.trim_left
    protogate.Security.Tokens.trim_right protogate.Storage.Cache.for_each
    protogate.Storage.Cache.live names_port behind_tcp protogate.Security.Tokens.has_prefix
    protogate.Base.text_eq protogate.Http.Response.decimal_from protogate.TcpServer.find_port
    protogate.TcpServer.visit_port protogate.Storage.Cache.put_ttl protogate.Base.insert
turned_away_test = (refl, refl)

-- The counts go up with a connection, and down to zero at most.
counts_test :
    let (first, left, found) = handle_accept digits 20 true false registered listener fresh in
    let (closed, s) = handle_connection_closed left found in
    (left.connection_count ≡ 1)
    × (found.active_connection_count ≡ 1)
    × (handle_connection_closed closed s ≡ (closed, s))
    × (closed.connection_count ≡ 0)
unfolding handle_accept find_tunnel_for_port register_ports protogate.Http.Text.trim
    protogate.Security.Tokens.is_blank protogate.Security.Tokens.trim_left
    protogate.Security.Tokens.trim_right protogate.Storage.Cache.for_each
    protogate.Storage.Cache.live names_port behind_tcp protogate.Security.Tokens.has_prefix
    protogate.Base.text_eq protogate.Http.Response.decimal_from protogate.TcpServer.find_port
    protogate.TcpServer.visit_port protogate.Storage.Cache.put_ttl protogate.Base.insert
    handle_connection_closed
counts_test = (refl, refl, refl, refl)
