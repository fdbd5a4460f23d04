-- ===== src/Forwarder/Frames.antt =====
-- The frames that the forwarder builds by hand, beside the server's own frames, and a data frame on
-- its way into the server's proxy.
use protogate.Base.{
  ℕ, ◌+◌, ◌%◌, ◌^◌, ◌<◌, ◌≤◌, ◌≡◌, [], ◌∷◌, ◌++◌, arith, length, true, Text, find, some,
  length-append, take_append_len, Bool,
}
use protogate.Forwarder.{Host, TcpForwarder, send, send_tcp_data_frame, send_tcp_close_frame}
use protogate.Proxy.Events.{handle_agent_data, handle_agent_tcp_frame}
use protogate.Proxy.Writes.{Carries, grown, find-handle_agent_data}
use protogate.Proxy.{TcpConnection, TcpProxy}
use protogate.Wire.Frames.{TcpDataFrame, serialize_data}
use protogate.Wire.ConnectionId.{connection_id_to_string}
use protogate.Wire.Integers.{get32_at, length-put32}
use protogate.Wire.RoundTrip.{drop_21, drop_two32}
use protogate.Wire.{Bytes, tcp_data, tcp_close, put16, put32}

-- The frame of the protocol that the forwarder means.
abbrev pub data_frame : Bytes → Bytes → ℕ → TcpDataFrame
data_frame id bytes n = record {
  type = tcp_data;
  connection_id = id;
  sequence_number = n;
  payload = bytes;
}

module _ (host : Host) (f : TcpForwarder) (callback : f.has_send_callback ≡ true) where
  -- With a callback set, a data frame with a 32-bit sequence number goes to the callback with the bytes
  -- that the server's own `serialize` of that frame has, on any platform.
  pub send_tcp_data_frame-serialize :
      (id bytes : Bytes) (n : ℕ)
      → n < 2 ^ 32
      → send_tcp_data_frame host id bytes n f ≡ send (serialize_data (data_frame id bytes n)) ∷ []
  unfolding send_tcp_data_frame serialize_data
  send_tcp_data_frame-serialize id bytes n small = ground (
    arith,
    callback,
    host.image32-hton32 n small,
    host.image32-hton32 (length bytes % 2 ^ 32) (omega arith),
  )

  pub send_tcp_close_frame_bytes :
      (id : Bytes) (reason : ℕ)
      → reason < 2 ^ 16
      → send_tcp_close_frame host id reason f ≡ send (tcp_close ∷ (id ++ put16 reason)) ∷ []
  unfolding send_tcp_close_frame
  send_tcp_close_frame_bytes id reason small =
      ground (arith, callback, host.image16-hton16 reason small)

-- The parts of a data frame on the wire.
module _ (id bytes : Bytes) (n : ℕ) (size : length id ≡ 16) (fits : length bytes < 2 ^ 32) where
  abbrev wire : Bytes
  wire = serialize_data (data_frame id bytes n)

  whole_fits : length bytes % 2 ^ 32 ≡ length bytes
  whole_fits = omega arith

  wire-Carries : Carries wire bytes
  unfolding serialize_data
  wire-Carries =
      let len = put32 (length bytes % 2 ^ 32) in
      let whole = length bytes % 2 ^ 32 in
      (
        omega (
          arith,
          length-append id (put32 n ++ (len ++ bytes)),
          length-append (put32 n) (len ++ bytes),
          length-append len bytes,
          length-put32 n,
          length-put32 whole,
        ),
        drop_two32 tcp_data id size n whole bytes,
        get32_at 21 wire bytes (length bytes)
            (rw whole_fits (drop_21 tcp_data id size n (put32 (length bytes) ++ bytes))) fits,
      )

  wire_dispatch :
      (has_agent : Text → Bool) (now : ℕ) (p : TcpProxy)
      → handle_agent_tcp_frame has_agent now wire p
        ≡ handle_agent_data now (connection_id_to_string id) wire p
  unfolding handle_agent_tcp_frame serialize_data
  wire_dispatch has_agent now p =
      let fields = put32 n ++ (put32 (length bytes % 2 ^ 32) ++ bytes) in
      ground (arith, length-append id fields, take_append_len 16 id fields size)

-- A data frame that the forwarder sends for a 16-byte id makes the server add the frame's bytes to
-- the receive buffer of the connection that carries this id in its text form and start to write the
-- buffer to the client, where the connection has a socket, the bytes are some, and the receive
-- window of at most 65536 bytes has room.
pub send_tcp_data_frame-delivered :
    (host : Host) (f : TcpForwarder) (has_agent : Text → Bool) (now n : ℕ) (id bytes frame : Bytes)
    (c : TcpConnection) (p : TcpProxy)
    → f.has_send_callback ≡ true
    → n < 2 ^ 32
    → length id ≡ 16
    → send_tcp_data_frame host id bytes n f ≡ send frame ∷ []
    → find (connection_id_to_string id) p.connections ≡ some c
    → c.has_socket ≡ true
    → 1 ≤ length bytes
    → length c.recv_buffer + length bytes ≤ c.recv_window_size
    → c.recv_window_size ≤ 65536
    → find (connection_id_to_string id) (handle_agent_tcp_frame has_agent now frame p).0.connections
      ≡ some (grown now bytes c)
send_tcp_data_frame-delivered host f has_agent now n id bytes frame c p callback small size sent
      found socket some_bytes room window =
    let fits : length bytes < 2 ^ 32 = omega arith in
    let whole = send_tcp_data_frame-serialize host f callback id bytes n small in
    let is_wire : frame ≡ wire id bytes n size fits = ground (arith, sent, whole) in
    rw (is_wire, wire_dispatch id bytes n size fits has_agent now p)
      (find-handle_agent_data now (connection_id_to_string id) (wire id bytes n size fits) bytes c p
        found socket (wire-Carries id bytes n size fits) some_bytes room window)
