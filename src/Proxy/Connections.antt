-- ===== src/Proxy/Connections.antt =====
-- src/proxy/tcp_proxy.cpp: how connections come and go. `has_agent` says for which tunnels
-- `get_agent` finds an agent; the ids that the code draws at random are arguments.
use protogate.Allowlist.Lists.{from_cidr_list}
use protogate.Allowlist.{Pton, is_allowed}
use protogate.Base.{
  ℕ, Bool, true, false, not, ◌&&◌, List, [], ◌∷◌, Option, none, some, length, ltb, ◌==◌,
  if◌then◌else◌, Text, find, insert, erase, Result, ok, err, ◌>>=◌, ◌>>◌, throw_if,
}
use protogate.Models.Tunnel.{Tunnel, http, tcp}
use protogate.Proxy.{
  TcpConnection, TcpProxy, Effect, send_tcp_data, send_tcp_close, ConnectionState, connecting,
  established, closing,
}
use protogate.Storage.Cache.{Cache, get, for_each}
use protogate.Wire.ConnectionId.{connection_id_to_string}
use protogate.Wire.Frames.{serialize_open}
use protogate.Wire.{ByteOrder, Bytes, tcp_open}

unfoldable pub new_proxy : TcpProxy
new_proxy = record { connections = [] }

-- What the callbacks report.
pub data CreateError : Type 0 where
  no_tunnel_for_port tunnel_not_found no_client_address ip_not_allowed agent_not_connected :
      CreateError

unfoldable pub or_throw {ℓ} : {A : Type ℓ} → CreateError → Option A → Result CreateError A
or_throw e none = err e
or_throw e (some a) = ok a

unfoldable pub is_tcp_tunnel : Tunnel → Bool
is_tcp_tunnel t = elim t.protocol [ http ↦ false | tcp ↦ true ]

-- The visit of `match_tunnel_by_port`, from the first pair on; the empty text is "none".
unfoldable pub search_port : ℕ → Text → List (Text × Tunnel) → Text
unfolding is_tcp_tunnel
search_port port matched [] = matched
search_port port matched ((id, t) ∷ rest) =
    search_port port (if is_tcp_tunnel t && t.target_port == port then id else matched) rest

unfoldable pub match_tunnel_by_port : ℕ → ℕ → Cache Tunnel → Text
match_tunnel_by_port now port tunnels = search_port port [] (for_each now tunnels)

module _ (net : Pton) where
  unfoldable pub validate_ip_allowlist : Tunnel → Text → Bool
  validate_ip_allowlist t client_ip =
      if length t.ip_allowlist == 0 then true else elim (from_cidr_list net t.ip_allowlist) [
        | none ↦ false
        | some allowlist ↦ is_allowed net allowlist client_ip
      ]

  -- The tests that both overloads of `create_connection` begin with; the client's address may be
  -- unknown.
  unfoldable pub admit : ℕ → Cache Tunnel → Bool → Text → Option Text → Result CreateError Text
  unfolding or_throw
  admit now tunnels connected tunnel_id address = do
    tunnel ← or_throw tunnel_not_found (get now tunnel_id tunnels)
    client_ip ← or_throw no_client_address address
    throw_if (not (validate_ip_allowlist tunnel client_ip)) ip_not_allowed
    throw_if (not connected) agent_not_connected
    ok client_ip

abbrev pub fresh_connection : ℕ → Text → Text → Text → ℕ → ConnectionState → TcpConnection
fresh_connection now id tunnel_id client_ip target_port state = record {
  connection_id = id;
  tunnel_id = tunnel_id;
  client_ip = client_ip;
  target_port = target_port;
  state = state;
  has_socket = true;
  bytes_sent = 0;
  bytes_received = 0;
  started_at = now;
  last_activity = now;
  send_buffer = [];
  recv_buffer = [];
  send_window_size = 65536;
  recv_window_size = 65536;
  writes = [];
}

-- `connections_[id] = connection`
unfoldable pub store : Text → TcpConnection → TcpProxy → TcpProxy
store id c p = record p { connections = insert id c p.connections }

module _ (net : Pton) (order : ByteOrder) (has_agent : Text → Bool) where
  abbrev pub open_message : Bytes → Effect
  open_message uuid =
      send_tcp_data (connection_id_to_string uuid)
        (serialize_open order (record { type = tcp_open; connection_id = uuid; target_port = 0 }))

  -- The first overload. It stores the connection under an id of its own, and then gives it another.
  unfoldable pub create_connection_for_port :
      ℕ
      → Cache Tunnel
      → (Text → Bool)
      → ℕ
      → Option Text
      → Text
      → Bytes
      → TcpProxy
      → Result CreateError (TcpProxy × List Effect)
  create_connection_for_port now tunnels is_connected port address temp_id uuid p = do
    let tunnel_id = match_tunnel_by_port now port tunnels
    throw_if (length tunnel_id == 0) no_tunnel_for_port
    client_ip ← admit net now tunnels (is_connected tunnel_id) tunnel_id address
    let text = connection_id_to_string uuid
    ok (
        if has_agent tunnel_id
        then (
          store temp_id (fresh_connection now text tunnel_id client_ip port connecting) p,
          open_message uuid ∷ [],
        )
        else (
          store temp_id (fresh_connection now temp_id tunnel_id client_ip port established) p,
          [],
        ))

  -- The second overload. With no agent the connection is in no map.
  unfoldable pub create_connection :
      ℕ
      → Cache Tunnel
      → (Text → Bool)
      → Text
      → Option Text
      → Bytes
      → TcpProxy
      → Result CreateError (TcpProxy × List Effect)
  create_connection now tunnels is_connected tunnel_id address uuid p = do
    client_ip ← admit net now tunnels (is_connected tunnel_id) tunnel_id address
    let text = connection_id_to_string uuid
    ok (
        if has_agent tunnel_id
        then (
          store text (fresh_connection now text tunnel_id client_ip 0 connecting) p,
          open_message uuid ∷ [],
        )
        else (p, []))

-- The callback of the open message, without an error.
unfoldable pub opened : Text → TcpProxy → TcpProxy
unfolding store
opened id p = elim (find id p.connections) [
  | none ↦ p
  | some c ↦ store id (record c { state = established }) p
]

unfoldable pub get_connection : Text → TcpProxy → Option TcpConnection
get_connection id p = find id p.connections

unfoldable pub cleanup_connection : Text → TcpProxy → TcpProxy
cleanup_connection id p = record p { connections = erase id p.connections }

module _ (has_agent : Text → Bool) where
  unfoldable pub close_connection : Text → Bool → TcpProxy → TcpProxy × List Effect
  close_connection id graceful p = elim (find id p.connections) [
    | none ↦ (p, [])
    | some c ↦ (
      if graceful && ltb 0 (length c.send_buffer)
          then store id (record c { state = closing }) p
          else cleanup_connection id p,
      if has_agent c.tunnel_id then send_tcp_close id ∷ [] else [],
    )
  ]

  unfoldable pub handle_error : Text → TcpProxy → TcpProxy × List Effect
  handle_error id p = close_connection id (false) p
