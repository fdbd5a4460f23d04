-- ===== src/TcpServer/Accept.antt =====
-- What becomes of a TCP connection.
use protogate.AgentServer.{register_ports, day}
use protogate.Base.{
  ℕ, ◌+◌, ◌^◌, ◌<◌, ◌≡◌, ◌≢◌, refl, ◌∙◌, Bool, true, false, List, [], ◌∷◌, arith, Option, none,
  some, length, Text, Any,
}
use protogate.Http.Lines.{Lacks}
use protogate.Http.Response.{decimal}
use protogate.Models.Tunnel.{Tunnel}
use protogate.Storage.Cache.{Cache, for_each}
use protogate.TcpServer.Ports.{IsOwn, has_fit, visit_port-IsOwn}
use protogate.TcpServer.Registered.{IsPort, some_port-has_fit, register_ports-IsOwn}
use protogate.TcpServer.{
  PortListener, TcpServer, find_port, visit_port, find_tunnel_for_port, handle_accept, handed,
}

-- The server with one more port found.
abbrev pub knows : ℕ → Text → TcpServer → TcpServer
knows port id s = record s { port_to_tunnel = (port, id) ∷ s.port_to_tunnel }

find_tunnel_for_port-has_fit :
    (stoi : Text → Option ℕ) (port later : ℕ) (id : Text) (tunnels : Cache Tunnel) (s : TcpServer)
    → length id ≢ 0
    → find_port port s.port_to_tunnel ≡ none
    → IsOwn stoi port id (for_each later tunnels)
    → has_fit stoi port id (for_each later tunnels) ≡ true
    → find_tunnel_for_port stoi later port tunnels s ≡ (id, knows port id s)
unfolding find_tunnel_for_port
find_tunnel_for_port-has_fit stoi port later id tunnels s some_id unknown own fit =
    let found : visit_port stoi port [] (for_each later tunnels) ≡ id =
      visit_port-IsOwn stoi port id [] (for_each later tunnels) own ∙ ground (arith, fit) in
    rw (find_tunnel_for_port, unknown, found) (ground (arith, some_id))

handle_accept-handed :
    (stoi : Text → Option ℕ) (later : ℕ) (throws : Bool) (id : Text) (tunnels : Cache Tunnel)
    (listener : PortListener) (s found : TcpServer)
    → length id ≢ 0
    → find_tunnel_for_port stoi later listener.port tunnels s ≡ (id, found)
    → ((handle_accept stoi later true throws tunnels listener s).0 ≡ handed id)
      × ((handle_accept stoi later true throws tunnels listener s).2.port_to_tunnel
          ≡ found.port_to_tunnel)
      × ((handle_accept stoi later true throws tunnels listener s).1.port ≡ listener.port)
unfolding handle_accept
handle_accept-handed stoi later true id tunnels listener s found some_id e =
    (ground (arith, some_id, e), ground (arith, some_id, e), ground (arith, some_id, e))
handle_accept-handed stoi later (false) id tunnels listener s found some_id e =
    (ground (arith, some_id, e), ground (arith, some_id, e), ground (arith, some_id, e))

find_tunnel_for_port-known :
    (stoi : Text → Option ℕ) (later port : ℕ) (id : Text) (tunnels : Cache Tunnel) (s : TcpServer)
    → find_port port s.port_to_tunnel ≡ some id
    → find_tunnel_for_port stoi later port tunnels s ≡ (id, s)
unfolding find_tunnel_for_port
find_tunnel_for_port-known stoi later port id tunnels s known =
    rw (find_tunnel_for_port, known) refl

-- If the loop over an agent's TCP ports ends without an exception and a port is among them, a
-- connection to the port within a day is handed to the proxy for the agent's tunnel, and so is the
-- next one, whatever the time and the tunnels are by then; also where the proxy throws. The tunnel's
-- id is a text with no colon, the port's digits are read as the port, every tunnel of the port before
-- has that id, and the server has not found a tunnel for the port yet.
pub register_ports-handle_accept :
    (stoi : Text → Option ℕ) (now wall later again : ℕ) (id : Text) (existing : Tunnel)
    (texts : List Text) (tunnels others : Cache Tunnel) (throws : Bool) (listener : PortListener)
    (s : TcpServer)
    → stoi (decimal listener.port) ≡ some listener.port
    → listener.port < 2 ^ 16
    → Lacks 58 id
    → length id ≢ 0
    → later < now + day
    → Any (IsPort stoi listener.port) texts
    → (register_ports stoi now wall id existing texts tunnels).0 ≡ true
    → IsOwn stoi listener.port id (for_each later tunnels)
    → find_port listener.port s.port_to_tunnel ≡ none
    → let registered = (register_ports stoi now wall id existing texts tunnels).1 in
      let (first, left, found) = handle_accept stoi later true throws registered listener s in
      (first ≡ handed id) × ((handle_accept stoi again true throws others left found).0 ≡ handed id)
unfolding find_port
register_ports-handle_accept stoi now wall later again id existing texts tunnels others throws
      listener s number small clean some_id before named ends own unknown =
    let registered = (register_ports stoi now wall id existing texts tunnels).1 in
    let fit =
      some_port-has_fit stoi listener.port id now wall later existing before number clean small
        texts tunnels named ends in
    let all_own =
      register_ports-IsOwn stoi listener.port id now wall later existing before texts tunnels own in
    let found =
      find_tunnel_for_port-has_fit stoi listener.port later id registered s some_id unknown all_own
        fit in
    let (first, kept, same) =
      handle_accept-handed stoi later throws id registered listener s (knows listener.port id s)
        some_id found in
    let next = handle_accept stoi later true throws registered listener s in
    let known : find_port next.1.port next.2.port_to_tunnel ≡ some id =
      rw (same, kept) ground arith in
    (
      first,
      (handle_accept-handed stoi again throws id others next.1 next.2 next.2 some_id
          (find_tunnel_for_port-known stoi again next.1.port id others next.2 known)).0,
    )
