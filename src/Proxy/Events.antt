-- ===== src/Proxy/Events.antt =====
-- src/proxy/tcp_proxy.cpp: `handle_agent_tcp_frame`, the completion of a client's read, and runs of the proxy
-- as sequences of calls.
use protogate.Base.{
  ℕ, ◌+◌, ◌%◌, ◌^◌, Bool, true, List, [], ◌∷◌, length, take, drop, ltb, leb, ◌==◌, ◌&&◌,
  if◌then◌else◌, Text, Result, ok, err, Option,
}
use protogate.Allowlist.{Pton}
use protogate.Models.Tunnel.{Tunnel}
use protogate.Proxy.Connections.{
  CreateError, close_connection, handle_error, create_connection, opened,
}
use protogate.Proxy.Transfer.{send_data, receive_data, write_to_client, written}
use protogate.Proxy.{TcpProxy, Effect}
use protogate.Storage.Cache.{Cache}
use protogate.Wire.ConnectionId.{connection_id_to_string}
use protogate.Wire.{ByteOrder, Bytes, byte_at, get32, tcp_data, tcp_close, tcp_error}

-- The data case. The sum in its test is a `uint32_t`.
unfoldable pub handle_agent_data : ℕ → Text → Bytes → TcpProxy → TcpProxy × List Effect
handle_agent_data now id frame p =
    let data_len = get32 frame 21 in
    let (p', effects) = receive_data now id (drop 25 frame) data_len p in
    if leb 25 (length frame) && leb ((25 + data_len) % 2 ^ 32) (length frame)
    then (write_to_client id p', effects)
    else (p, [])

module _ (has_agent : Text → Bool) where
  unfoldable pub handle_agent_tcp_frame : ℕ → Bytes → TcpProxy → TcpProxy × List Effect
  handle_agent_tcp_frame now frame p =
      let type = byte_at frame 0 in
      let id = connection_id_to_string (take 16 (drop 1 frame)) in
      if ltb (length frame) 17
      then (p, [])
      else if type == tcp_data
      then handle_agent_data now id frame p
      else if type == tcp_close
      then close_connection has_agent id true p
      else if type == tcp_error
      then (if leb 21 (length frame) then handle_error has_agent id p else (p, []))
      else (p, [])

-- What the server's own code calls. Neither the overload of `create_connection` by port nor
-- `update_window` is among it.
pub data Event : Type 0 where
  create : Cache Tunnel → (Text → Bool) → Text → Option Text → Bytes → Event
  open_sent client_closed write_done : Text → Event
  client_data : Text → Bytes → Event
  failed : Text → Event
  agent_frame : Bytes → Event

-- A connection that is refused leaves the proxy alone.
abbrev pub created_or :
    TcpProxy → Result CreateError (TcpProxy × List Effect) → TcpProxy × List Effect
created_or p (err e) = (p, [])
created_or p (ok done) = done

module _ (net : Pton) (order : ByteOrder) (has_agent : Text → Bool) where
  -- One call, at a time.
  unfoldable pub step : ℕ → Event → TcpProxy → TcpProxy × List Effect
  step now (create tunnels is_connected tunnel_id address uuid) p =
      created_or p
        (create_connection net order has_agent now tunnels is_connected tunnel_id address uuid p)
  step now (open_sent id) p = (opened id p, [])
  step now (client_data id bytes) p =
      let (p', n, effects) = send_data has_agent now id bytes p in (p', effects)
  step now (client_closed id) p = close_connection has_agent id true p
  step now (failed id) p = handle_error has_agent id p
  step now (write_done id) p = written id p
  step now (agent_frame frame) p = handle_agent_tcp_frame has_agent now frame p

  -- A sequence of calls with their times, from the first on.
  unfoldable pub run : List (ℕ × Event) → TcpProxy → TcpProxy
  run [] p = p
  run ((now, e) ∷ events) p = run events (step now e p).0
