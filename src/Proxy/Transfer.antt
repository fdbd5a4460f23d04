-- ===== src/Proxy/Transfer.antt =====
-- src/proxy/tcp_proxy.cpp: the bytes of a connection, their windows and counters. A `size_t` and a
-- `uint64_t` have 64 bits.
use protogate.Base.{
  ℕ, ◌+◌, ◌-◌, ◌%◌, ◌^◌, Bool, false, not, ◌||◌, List, [], ◌∷◌, ◌++◌, none, some, length, take,
  drop, min, ltb, leb, ◌==◌, if◌then◌else◌, Text, find, Result, ok, err, ◌>>=◌,
}
use protogate.Proxy.Connections.{store, get_connection}
use protogate.Proxy.{
  TcpConnection, TcpProxy, Effect, send_tcp_data, over_read, over_erase, ConnectionState,
  connecting, established, closing, closed,
}
use protogate.Wire.ConnectionId.{IdError, string_to_connection_id}
use protogate.Wire.Frames.{serialize_data}
use protogate.Wire.{Bytes, tcp_data}

unfoldable pub is_established : ConnectionState → Bool
is_established established = 0 == 0
is_established connecting = false
is_established closing = false
is_established closed = false

-- `min(length, send_window_size - send_buffer.size())`
unfoldable pub to_send : TcpConnection → Bytes → ℕ
to_send c bytes = min (length bytes) ((c.send_window_size + 2 ^ 64 - length c.send_buffer) % 2 ^ 64)

-- The part of `send_data` that changes the connection.
unfoldable pub queue : ℕ → Bytes → TcpConnection → TcpConnection
queue now bytes c = record c {
  send_buffer = c.send_buffer ++ bytes;
  bytes_sent = (c.bytes_sent + length bytes) % 2 ^ 64;
  last_activity = now;
}

-- The data frame; `c` is the connection before the bytes were added.
unfoldable pub data_message : Text → TcpConnection → Bytes → Result IdError Bytes
data_message id c bytes = do
  uuid ← string_to_connection_id id
  ok (
      serialize_data (record {
        type = tcp_data;
        connection_id = uuid;
        sequence_number = c.bytes_sent % 2 ^ 32;
        payload = bytes;
      }))

-- The part of `send_data` behind the look-up: the proxy, the bytes accepted and the calls.
unfoldable pub send_on :
    (Text → Bool) → ℕ → Text → Bytes → TcpConnection → TcpProxy → TcpProxy × ℕ × List Effect
unfolding is_established to_send queue data_message
send_on has_agent now id bytes c p =
    let n = to_send c bytes in
    let p' = store id (queue now (take n bytes) c) p in
    if not (is_established c.state) || n == 0
    then (p, 0, [])
    else if not (has_agent c.tunnel_id)
    then (p', n, [])
    else elim (data_message id c (take n bytes)) [
      | err e ↦ (p', 0, [])
      | ok frame ↦ (p', n, send_tcp_data id frame ∷ [])
    ]

unfoldable pub send_data : (Text → Bool) → ℕ → Text → Bytes → TcpProxy → TcpProxy × ℕ × List Effect
send_data has_agent now id bytes p = elim (find id p.connections) [
  | none ↦ (p, 0, [])
  | some c ↦ send_on has_agent now id bytes c p
]

-- `source` are the bytes from the pointer on, as many as there are.
unfoldable pub receive_data : ℕ → Text → Bytes → ℕ → TcpProxy → TcpProxy × List Effect
receive_data now id source len p = elim (find id p.connections) [
  | none ↦ (p, [])
  | some c ↦ if ltb c.recv_window_size (length c.recv_buffer + len) then (p, []) else (
    store id
        (record c {
          recv_buffer = c.recv_buffer ++ take len source;
          bytes_received = (c.bytes_received + len) % 2 ^ 64;
          last_activity = now;
        })
        p,
    if ltb (length source) len then over_read ∷ [] else [],
  )
]

unfoldable pub can_send : Text → TcpProxy → Bool
can_send id p = elim (get_connection id p) [
  | none ↦ false
  | some c ↦ ltb (length c.send_buffer) c.send_window_size
]

unfoldable pub update_window : Text → ℕ → TcpProxy → TcpProxy
update_window id bytes_consumed p = elim (get_connection id p) [
  | none ↦ p
  | some c ↦
      if leb bytes_consumed (length c.send_buffer)
      then store id (record c { send_buffer = drop bytes_consumed c.send_buffer }) p
      else p
]

-- `write_to_client` starts to write the whole receive buffer.
unfoldable pub start_write : TcpConnection → TcpConnection
start_write c =
    if length c.recv_buffer == 0 then c else record c { writes = c.writes ++ (c.recv_buffer ∷ []) }

unfoldable pub write_to_client : Text → TcpProxy → TcpProxy
write_to_client id p = elim (get_connection id p) [
  | none ↦ p
  | some c ↦ if c.has_socket then store id (start_write c) p else p
]

-- The oldest write completes: its bytes are erased from the front of the buffer, and the rest is
-- written.
unfoldable pub finish_write : Text → TcpConnection → TcpProxy → TcpProxy × List Effect
unfolding start_write
finish_write id c p = elim c.writes [
  | [] ↦ (p, [])
  | written ∷ rest ↦ (
    store id
        (start_write
          (record c { writes = rest; recv_buffer = drop (length written) c.recv_buffer }))
        p,
    if ltb (length c.recv_buffer) (length written) then over_erase ∷ [] else [],
  )
]

unfoldable pub written : Text → TcpProxy → TcpProxy × List Effect
written id p = elim (find id p.connections) [ none ↦ (p, []) | some c ↦ finish_write id c p ]
