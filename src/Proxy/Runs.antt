-- ===== src/Proxy/Runs.antt =====
-- The windows of the connections of src/proxy/tcp_proxy.cpp in every run of the server's own calls.
use protogate.Base.{
  ◌&&◌, ltb, leb, ◌%◌, sym, ◌==◌, inl, inr, subst, ◌⊎◌, ℕ, ◌+◌, ◌^◌, ◌≤◌, ◌≡◌, ◌≢◌, Bool, true,
  false, List, [], ◌∷◌, ◌++◌, arith, some, length, take, drop, length-append, length-take,
  length-drop, Text, find, none-ne-some, Result-cases,
}
use protogate.Allowlist.{Pton}
use protogate.Proxy.Connections.{new_proxy, store, handle_error, create_connection, get_connection}
use protogate.Proxy.Events.{
  created_or, Event, create, open_sent, client_closed, write_done, client_data, failed, agent_frame,
  handle_agent_data, handle_agent_tcp_frame, step, run,
}
use protogate.Proxy.Transfer.{
  to_send, queue, send_on, send_data, receive_data, write_to_client, start_write, finish_write,
  written,
}
use protogate.Proxy.{TcpConnection, TcpProxy, Effect, closed}
use protogate.Wire.{ByteOrder, Bytes, byte_at, get32, tcp_data, tcp_close, tcp_error}
use protogate.Wire.ConnectionId.{connection_id_to_string}
use protogate.Proxy.Windows.{
  InWindow, IsSound, by_list, by_option, by_test, close_connection-IsSound,
  create_connection-IsSound, opened-IsSound, store-IsSound,
}

sent :
    (has_agent : Text → Bool) (now : ℕ) (id : Text) (bytes : Bytes) (c : TcpConnection)
    (p : TcpProxy)
    → (p ≡ (send_on has_agent now id bytes c p).0)
      ⊎ (store id (queue now (take (to_send c bytes) bytes) c) p
          ≡ (send_on has_agent now id bytes c p).0)
unfolding send_on
sent has_agent now id bytes c p = ground arith

queue-InWindow :
    (now : ℕ) (bytes : Bytes) (c : TcpConnection)
    → InWindow c
    → InWindow (queue now (take (to_send c bytes) bytes) c)
unfolding queue to_send
queue-InWindow now bytes c w =
    let n = to_send c bytes in
    let grown = length-append c.send_buffer (take n bytes) in
    let taken = length-take n bytes in
    (w.0, w.1, ground (arith, grown, taken), ground (arith, grown, taken), w.4, w.5)

send_data-IsSound :
    (has_agent : Text → Bool) (now : ℕ) (id : Text) (bytes : Bytes) (p : TcpProxy)
    → IsSound p
    → IsSound (send_data has_agent now id bytes p).0
unfolding send_data
send_data-IsSound has_agent now id bytes p h =
    by_option (λ (r : TcpProxy × ℕ × List Effect). IsSound r.0) (find id p.connections) _ _ h
      λ c e. elim (sent has_agent now id bytes c p) [
        | inl same ↦ subst IsSound same h
        | inr stored ↦
            subst IsSound stored
              (store-IsSound id _ p h (queue-InWindow now bytes c (h.in_window id c e)))
      ]

receive_data-IsSound :
    (now : ℕ) (id : Text) (source : Bytes) (len : ℕ) (p : TcpProxy)
    → IsSound p
    → IsSound (receive_data now id source len p).0
unfolding receive_data
receive_data-IsSound now id source len p h =
    by_option (λ (r : TcpProxy × List Effect). IsSound r.0) (find id p.connections) _ _ h
      λ c e.
        let w = h.in_window id c e in
        by_test (λ (r : TcpProxy × List Effect). IsSound r.0)
          (ltb c.recv_window_size (length c.recv_buffer + len)) _ _ (λ full. h)
          λ room.
            store-IsSound id
              (record c {
                recv_buffer = c.recv_buffer ++ take len source;
                bytes_received = (c.bytes_received + len) % 2 ^ 64;
                last_activity = now;
              })
              p h
              (
                w.0,
                w.1,
                w.2,
                w.3,
                ground
                    (arith, length-append c.recv_buffer (take len source), length-take len source),
                w.5,
              )

start_write-InWindow : (c : TcpConnection) → InWindow c → InWindow (start_write c)
unfolding start_write
start_write-InWindow c w =
    by_test InWindow (length c.recv_buffer == 0) _ _ (λ idle. w)
      (λ busy. (w.0, w.1, w.2, w.3, w.4, w.5))

write_to_client-IsSound : (id : Text) (p : TcpProxy) → IsSound p → IsSound (write_to_client id p)
unfolding write_to_client get_connection
write_to_client-IsSound id p h = by_option IsSound (find id p.connections) _ _ h λ c e.
    by_test IsSound c.has_socket _ _
      (λ attached. store-IsSound id _ p h (start_write-InWindow c (h.in_window id c e)))
      (λ alone. h)

finish_write-IsSound :
    (id : Text) (c : TcpConnection) (p : TcpProxy)
    → IsSound p
    → InWindow c
    → IsSound (finish_write id c p).0
unfolding finish_write
finish_write-IsSound id c p h w =
    by_list (λ (r : TcpProxy × List Effect). IsSound r.0) c.writes _ _ h
      λ b rest. store-IsSound id _ p h (
        start_write-InWindow _
          (w.0, w.1, w.2, w.3, omega (arith, length-drop (length b) c.recv_buffer), w.5))

written-IsSound : (id : Text) (p : TcpProxy) → IsSound p → IsSound (written id p).0
unfolding written
written-IsSound id p h =
    by_option (λ (r : TcpProxy × List Effect). IsSound r.0) (find id p.connections) _ _ h
      λ c e. finish_write-IsSound id c p h (h.in_window id c e)

handle_agent_data-IsSound :
    (now : ℕ) (id : Text) (frame : Bytes) (p : TcpProxy)
    → IsSound p
    → IsSound (handle_agent_data now id frame p).0
unfolding handle_agent_data
handle_agent_data-IsSound now id frame p h =
    by_test (λ (r : TcpProxy × List Effect). IsSound r.0)
      (leb 25 (length frame) && leb ((25 + get32 frame 21) % 2 ^ 32) (length frame)) _ _
      (λ whole.
        write_to_client-IsSound id (receive_data now id (drop 25 frame) (get32 frame 21) p).0
          (receive_data-IsSound now id (drop 25 frame) (get32 frame 21) p h))
      (λ cut. h)

handle_agent_tcp_frame-IsSound :
    (has_agent : Text → Bool) (now : ℕ) (frame : Bytes) (p : TcpProxy)
    → IsSound p
    → IsSound (handle_agent_tcp_frame has_agent now frame p).0
unfolding handle_agent_tcp_frame handle_error
handle_agent_tcp_frame-IsSound has_agent now frame p h =
    let id = connection_id_to_string (take 16 (drop 1 frame)) in
    let P : TcpProxy × List Effect → Type 0 = λ r. IsSound r.0 in
    by_test P (ltb (length frame) 17) _ _ (λ short. h)
      λ long.
        by_test P (byte_at frame 0 == tcp_data) _ _
          (λ is_data. handle_agent_data-IsSound now id frame p h)
          λ no_data.
            by_test P (byte_at frame 0 == tcp_close) _ _
              (λ is_close. close_connection-IsSound has_agent id true p h)
              λ no_close.
                by_test P (byte_at frame 0 == tcp_error) _ _
                  (λ is_error.
                    by_test P (leb 21 (length frame)) _ _
                      (λ whole. close_connection-IsSound has_agent id false p h) (λ cut. h))
                  (λ other. h)

module _ (net : Pton) (order : ByteOrder) (has_agent : Text → Bool) where
  step-IsSound :
      (now : ℕ) (e : Event) (p : TcpProxy)
      → IsSound p
      → IsSound (step net order has_agent now e p).0
  unfolding step handle_error
  step-IsSound now (create tunnels is_connected tunnel_id address uuid) p h =
      elim (Result-cases
        (create_connection net order has_agent now tunnels is_connected tunnel_id address uuid p)) [
          | inl (done, made) ↦
              subst (λ r. IsSound (created_or p r).0) (sym made)
                (create_connection-IsSound net order has_agent now tunnels is_connected tunnel_id
                  address uuid p done h made)
          | inr (bad, refused) ↦ subst (λ r. IsSound (created_or p r).0) (sym refused) h
        ]
  step-IsSound now (open_sent id) p h = opened-IsSound id p h
  step-IsSound now (client_data id bytes) p h = send_data-IsSound has_agent now id bytes p h
  step-IsSound now (client_closed id) p h = close_connection-IsSound has_agent id true p h
  step-IsSound now (failed id) p h = close_connection-IsSound has_agent id false p h
  step-IsSound now (write_done id) p h = written-IsSound id p h
  step-IsSound now (agent_frame frame) p h = handle_agent_tcp_frame-IsSound has_agent now frame p h

  pub run-IsSound :
      (events : List (ℕ × Event)) (p : TcpProxy)
      → IsSound p
      → IsSound (run net order has_agent events p)
  unfolding run
  run-IsSound [] p h = h
  run-IsSound ((now, e) ∷ events) p h =
      run-IsSound events (step net order has_agent now e p).0 (step-IsSound now e p h)

  pub new_proxy-IsSound : IsSound new_proxy
  unfolding new_proxy find
  new_proxy-IsSound = record { is_map = tt; in_window = λ id c e. absurd (none-ne-some e) }

  -- In every run of the server's own calls, which `update_window` is none of, each connection in the
  -- map has sent at most 65,536 bytes, all of which are still in its send buffer; its receive buffer
  -- holds at most 65,536 bytes, and it is not in the state CLOSED.
  pub run-bytes_sent :
      (events : List (ℕ × Event)) (id : Text) (c : TcpConnection)
      → find id (run net order has_agent events new_proxy).connections ≡ some c
      → (c.bytes_sent ≡ length c.send_buffer)
        × (c.bytes_sent ≤ 65536)
        × (length c.recv_buffer ≤ 65536)
        × (c.state ≢ closed)
  run-bytes_sent events id c e =
      let w = (run-IsSound events new_proxy new_proxy-IsSound).in_window id c e in
      (w.2, omega (arith, w.2, w.3), w.4, w.5)
