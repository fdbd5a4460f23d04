-- ===== src/Proxy/Delivery.antt =====
-- The frames that `send_data` of src/proxy/tcp_proxy.cpp writes, at the agent's `handle_read`
-- (tunnel-agent/src/client/http2_session.cpp), and the agent's frames at the proxy.
use protogate.Agent.Cut.{handle_read-full_read}
use protogate.Agent.Stream.{handle_read, full_read}
use protogate.Agent.{handle_tcp_data}
use protogate.Allowlist.{Pton}
use protogate.Base.{
  ℕ, ◌+◌, ◌-◌, ◌%◌, ◌^◌, ◌≤◌, ◌<◌, ◌≡◌, refl, Bool, true, false, List, [], ◌∷◌, arith, some, length,
  take, drop, min, length-take, length-drop, Text, find, ok, leb, ◌&&◌, if◌then◌else◌,
}
use protogate.Proxy.Connections.{new_proxy, close_connection, handle_error}
use protogate.Proxy.Events.{Event, handle_agent_data, handle_agent_tcp_frame, run}
use protogate.Proxy.Transfer.{
  is_established, to_send, data_message, send_on, send_data, receive_data,
}
use protogate.Proxy.Runs.{run-IsSound, new_proxy-IsSound}
use protogate.Proxy.Windows.{InWindow, IsSound, by_option, by_test}
use protogate.Proxy.{TcpConnection, TcpProxy, Effect, send_tcp_data, over_read, established}
use protogate.Wire.ConnectionId.{
  connection_id_to_string, string_to_connection_id, string_to_connection_id-connection_id_to_string,
}
use protogate.Wire.Frames.{TcpDataFrame, serialize_data}
use protogate.Wire.Integers.{IsBytes}
use protogate.Wire.{ByteOrder, Bytes, get32, tcp_data}

-- The frame that carries the bytes of a call.
abbrev pub sent_frame : Bytes → TcpConnection → Bytes → TcpDataFrame
sent_frame uuid c bytes = record {
  type = tcp_data;
  connection_id = uuid;
  sequence_number = c.bytes_sent % 2 ^ 32;
  payload = bytes;
}

-- How many bytes the window has room for, of those that are there.
abbrev pub accepted : TcpConnection → Bytes → ℕ
accepted c bytes = min (length bytes) (65536 - length c.send_buffer)

to_send-accepted :
    (c : TcpConnection) (bytes : Bytes) → InWindow c → to_send c bytes ≡ accepted c bytes
unfolding to_send
to_send-accepted c bytes w = omega (arith, w.0, w.3)

-- On an established connection of a tunnel with an agent, under the text of its 16-byte id, a call of
-- `send_data` with bytes, while the window is not full, accepts as many of them as the window has
-- room for, and sends one frame with them. Where these are at most 8167, and the agent's next read has
-- the frame and nothing else, it hands its forwarder exactly these bytes; where they are more, a read
-- that fills the agent's buffer has a part of the frame, and hands the forwarder nothing and all of it
-- to the HTTP/2 library.
pub send_data-handle_read :
    (has_agent : Text → Bool) (now : ℕ) (uuid : Bytes) (bytes : Bytes) (c : TcpConnection)
    (p : TcpProxy)
    → IsBytes uuid
    → length uuid ≡ 16
    → find (connection_id_to_string uuid) p.connections ≡ some c
    → InWindow c
    → c.state ≡ established
    → has_agent c.tunnel_id ≡ true
    → 1 ≤ length bytes
    → length c.send_buffer < 65536
    → let payload = take (accepted c bytes) bytes in
      let frame = serialize_data (sent_frame uuid c payload) in
      ((send_data has_agent now (connection_id_to_string uuid) bytes p).1 ≡ accepted c bytes)
      × ((send_data has_agent now (connection_id_to_string uuid) bytes p).2
          ≡ send_tcp_data (connection_id_to_string uuid) frame ∷ [])
      × (handle_read true (full_read frame) ≡ (
          if leb (length payload) 8167
          then (handle_tcp_data uuid payload ∷ [], [])
          else ([], full_read frame)))
unfolding send_data send_on is_established data_message
send_data-handle_read has_agent now uuid bytes c p ub us found w state agent some_bytes room = (
  ground (arith, found, id, to_send-accepted c bytes w),
  ground (arith, found, id, to_send-accepted c bytes w),
  handle_read-full_read (sent_frame uuid c (take (accepted c bytes) bytes))
      (refl, us, omega (arith, length-take (accepted c bytes) bytes)),
)
  where
    id : string_to_connection_id (connection_id_to_string uuid) ≡ ok uuid
    id = string_to_connection_id-connection_id_to_string uuid ub us

-- One of the effects is a read past the end.
unfoldable pub has_over_read : List Effect → Bool
has_over_read [] = false
has_over_read (over_read ∷ effects) = true
has_over_read (_ ∷ effects) = has_over_read effects

receive_data_reads :
    (now : ℕ) (id : Text) (source : Bytes) (len : ℕ) (p : TcpProxy)
    → IsSound p
    → (len ≤ 65536 → len ≤ length source)
    → has_over_read (receive_data now id source len p).1 ≡ false
unfolding receive_data has_over_read
receive_data_reads now id source len p h there =
    by_option (λ (r : TcpProxy × List Effect). has_over_read r.1 ≡ false) (find id p.connections) _
      _ refl λ c e. let w = h.in_window id c e in ground (arith, w.1, there)

handle_agent_data_reads :
    (now : ℕ) (id : Text) (frame : Bytes) (p : TcpProxy)
    → IsSound p
    → IsBytes frame
    → has_over_read (handle_agent_data now id frame p).1 ≡ false
unfolding handle_agent_data has_over_read
handle_agent_data_reads now id frame p h bytes =
    by_test (λ (r : TcpProxy × List Effect). has_over_read r.1 ≡ false)
      (leb 25 (length frame) && leb ((25 + get32 frame 21) % 2 ^ 32) (length frame)) _ _
      (λ whole.
        receive_data_reads now id (drop 25 frame) (get32 frame 21) p h
          (λ small. ground (arith, length-drop 25 frame)))
      (λ cut. refl)

close_connection_reads :
    (has_agent : Text → Bool) (id : Text) (graceful : Bool) (p : TcpProxy)
    → has_over_read (close_connection has_agent id graceful p).1 ≡ false
unfolding close_connection has_over_read
close_connection_reads has_agent id graceful p = ground arith

-- In every run of the server's own calls, a frame of the agent, whatever its bytes, makes the proxy
-- read no byte past its end, also where the sum in the length check wraps around.
pub handle_agent_tcp_frame-run :
    (net : Pton) (order : ByteOrder) (has_agent : Text → Bool) (events : List (ℕ × Event)) (now : ℕ)
    (frame : Bytes)
    → IsBytes frame
    → has_over_read
        (handle_agent_tcp_frame has_agent now frame (run net order has_agent events new_proxy)).1
      ≡ false
unfolding handle_agent_tcp_frame handle_error has_over_read
handle_agent_tcp_frame-run net order has_agent events now frame bytes =
    let p = run net order has_agent events new_proxy in
    let h =
      run-IsSound net order has_agent events new_proxy (new_proxy-IsSound net order has_agent) in
    let id = connection_id_to_string (take 16 (drop 1 frame)) in
    ground (
      arith,
      handle_agent_data_reads now id frame p h bytes,
      close_connection_reads has_agent id true p,
      close_connection_reads has_agent id false p,
    )
