-- ===== src/Proxy/Writes.antt =====
-- What `handle_agent_tcp_frame` and `write_to_client` of src/proxy/tcp_proxy.cpp write to a client.
use protogate.Base.{
  ap, ℕ, ◌+◌, ◌%◌, ◌^◌, ◌≤◌, ◌≡◌, ◌∙◌, true, List, [], ◌∷◌, ◌++◌, arith, some, length, drop,
  length-append, take_all, Text, find, find-insert, text_eq_refl, Option, none,
}
use protogate.Proxy.Connections.{store, get_connection}
use protogate.Proxy.Events.{handle_agent_data}
use protogate.Proxy.Transfer.{receive_data, write_to_client, start_write}
use protogate.Proxy.{TcpConnection, TcpProxy}
use protogate.Wire.{Bytes, get32}

-- A whole data frame, of which `payload` is the part behind the header.
abbrev pub Carries : Bytes → Bytes → Type 0
Carries frame payload =
    (length frame ≡ 25 + length payload)
    × (drop 25 frame ≡ payload)
    × (get32 frame 21 ≡ length payload)

-- The connection with more bytes received, and with all its received bytes being written.
abbrev pub grown : ℕ → Bytes → TcpConnection → TcpConnection
grown now payload c = record c {
  recv_buffer = c.recv_buffer ++ payload;
  bytes_received = (c.bytes_received + length payload) % 2 ^ 64;
  last_activity = now;
  writes = c.writes ++ ((c.recv_buffer ++ payload) ∷ []);
}

store_found :
    (id : Text) (c : TcpConnection) (p : TcpProxy) → find id (store id c p).connections ≡ some c
unfolding store
store_found id c p = ground (arith, find-insert id id c p.connections, text_eq_refl id)

abbrev received : ℕ → Bytes → TcpConnection → TcpConnection
received now payload c = record c {
  recv_buffer = c.recv_buffer ++ payload;
  bytes_received = (c.bytes_received + length payload) % 2 ^ 64;
  last_activity = now;
}

receive_data_found :
    (now : ℕ) (id : Text) (payload : Bytes) (c : TcpConnection) (p : TcpProxy)
    → find id p.connections ≡ some c
    → length c.recv_buffer + length payload ≤ c.recv_window_size
    → (receive_data now id payload (length payload) p).0 ≡ store id (received now payload c) p
unfolding receive_data
receive_data_found now id payload c p found room =
    ground (arith, found, take_all (length payload) payload (omega arith))

write_to_client_found :
    (id : Text) (c : TcpConnection) (p : TcpProxy)
    → find id p.connections ≡ some c
    → c.has_socket ≡ true
    → 1 ≤ length c.recv_buffer
    → write_to_client id p ≡ store id (record c { writes = c.writes ++ (c.recv_buffer ∷ []) }) p
unfolding write_to_client get_connection start_write
write_to_client_found id c p found socket busy = ground (arith, found)

data_case :
    (now : ℕ) (id : Text) (frame payload : Bytes) (p : TcpProxy)
    → Carries frame payload
    → length payload ≤ 65536
    → (handle_agent_data now id frame p).0
      ≡ write_to_client id (receive_data now id payload (length payload) p).0
unfolding handle_agent_data
data_case now id frame payload p (size, behind, says) small = ground (arith, behind, says)

-- A whole data frame with bytes for which the receive window has room adds them to the receive buffer
-- and starts to write the whole buffer to the client.
pub find-handle_agent_data :
    (now : ℕ) (id : Text) (frame payload : Bytes) (c : TcpConnection) (p : TcpProxy)
    → find id p.connections ≡ some c
    → c.has_socket ≡ true
    → Carries frame payload
    → 1 ≤ length payload
    → length c.recv_buffer + length payload ≤ c.recv_window_size
    → c.recv_window_size ≤ 65536
    → find id (handle_agent_data now id frame p).0.connections ≡ some (grown now payload c)
find-handle_agent_data now id frame payload c p found socket carries some_bytes room window =
    let stored = receive_data_found now id payload c p found room in
    let p' = store id (received now payload c) p in
    let started =
      write_to_client_found id (received now payload c) p'
        (store_found id (received now payload c) p) socket
        (omega (arith, length-append c.recv_buffer payload)) in
    ap (λ (q : TcpProxy). find id q.connections)
      (data_case now id frame payload p carries (omega arith)
        ∙ ap (write_to_client id) stored
        ∙ started)
    ∙ store_found id (grown now payload c) p'

-- The writes to the client of a connection that have not completed.
unfoldable pub writes_of : Text → TcpProxy → List Bytes
writes_of id p = elim (find id p.connections) [ none ↦ [] | some c ↦ c.writes ]

-- If two whole data frames arrive before the client's socket has taken the bytes of the first, the
-- bytes of the first are written to the client twice: alone, and before those of the second.
pub handle_agent_data-twice :
    (now later : ℕ) (id : Text) (frame frame' payload payload' : Bytes) (c : TcpConnection)
    (p : TcpProxy)
    → find id p.connections ≡ some c
    → c.has_socket ≡ true
    → c.recv_buffer ≡ []
    → c.writes ≡ []
    → Carries frame payload
    → Carries frame' payload'
    → 1 ≤ length payload
    → 1 ≤ length payload'
    → length payload + length payload' ≤ c.recv_window_size
    → c.recv_window_size ≤ 65536
    → writes_of id (handle_agent_data later id frame' (handle_agent_data now id frame p).0).0
      ≡ payload ∷ (payload ++ payload') ∷ []
unfolding writes_of
handle_agent_data-twice now later id frame frame' payload payload' c p found socket idle none_yet
      carries carries' some_bytes more room window =
    let first =
      find-handle_agent_data now id frame payload c p found socket carries some_bytes
        (omega (arith, ap length idle)) window in
    let second =
      find-handle_agent_data later id frame' payload' (grown now payload c)
        (handle_agent_data now id frame p).0 first socket carries' more
        (omega (arith, length-append c.recv_buffer payload, ap length idle)) window in
    ap (λ (o : Option TcpConnection). (elim o [ none ↦ [] | some d ↦ d.writes ])) second
    ∙ rw (none_yet, idle)
