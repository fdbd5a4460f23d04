-- ===== src/Forwarder.antt =====
-- The agent's forwarder, tunnel-agent/src/forwarder/tcp_forwarder.h and .cpp: its connections to the
-- local service, the handlers of the server's frames, and the completions of what they start.
--
-- A `shared_ptr<TCPConnection>` is a handle, the connection's place in `objects`; a new object goes
-- to the end. The map and the lambdas hold handles, so two of them may name one object, and the map
-- may lose one that a lambda still holds.
pub mod Hosts
pub mod Frames
pub mod Runs
pub mod Writes
pub mod Buffers
pub mod Sequence
pub mod Flushed
pub mod Examples
use protogate.Base.{
  ◌<◌, ◌≡◌, ℕ, zero, suc, ◌+◌, ◌%◌, ◌^◌, Bool, true, false, not, ◌&&◌, List, [], ◌∷◌, ◌++◌, length,
  ltb, ◌==◌, Option, none, some, if◌then◌else◌, Map, find, insert, erase,
}
use protogate.Wire.{Bytes, ByteOrder, tcp_data, tcp_close, put16, put32}

-- The memory image of an integer of the platform, with its byte order. `htonl` and `htons` give the
-- integer whose image is the number's bytes, high byte first.
pub record Host : Type 0 where
  pub order : ByteOrder
  pub image16 : ℕ → Bytes
  pub image32 : ℕ → Bytes
  pub image16-hton16 : (x : ℕ) → x < 2 ^ 16 → image16 (order.hton16 x) ≡ put16 x
  pub image32-hton32 : (x : ℕ) → x < 2 ^ 32 → image32 (order.hton32 x) ≡ put32 x

-- `struct TCPConnection`. The socket is a unique pointer that is set on creation and never reset;
-- what counts of it is whether it is open. `closing` is set and never read.
pub record TcpConnection : Type 0 where
  pub connection_id : Bytes
  pub is_open : Bool
  pub sequence_number : ℕ
  pub closing : Bool
  pub connected : Bool
  pub pending_data : List Bytes

pub record TcpForwarder : Type 0 where
  pub target_port : ℕ
  pub has_send_callback : Bool
  pub connections : Map ℕ
  pub objects : List TcpConnection

-- Where a buffer of `async_write` lies: in the element of the connection's `pending_data` with this
-- number, or in the argument of the handler, which its caller destroys when the handler returns.
pub data Memory : Type 0 where
  pending : ℕ → Memory
  argument : Memory

-- What a handler starts or calls, in order.
pub data Action : Type 0 where
  -- `async_resolve` of the port, for this connection.
  resolve : ℕ → Bytes → ℕ → Action
  -- `async_connect`
  connect : ℕ → Bytes → Action
  -- `async_write` to this connection's socket of a buffer, with the bytes that it has when the call is
  -- made. `async_write` does not copy them: the buffer must last until the write is complete.
  write : ℕ → Memory → Bytes → Action
  -- `async_read_some`
  read : ℕ → Action
  -- `send_callback_(frame)`
  send : Bytes → Action

abbrev Handled : Type 0
Handled = List Action × TcpForwarder

abbrev pub object : ℕ → List TcpConnection → Option TcpConnection
object h [] = none
object zero (c ∷ cs) = some c
object (suc h) (c ∷ cs) = object h cs

abbrev pub set_object : ℕ → TcpConnection → List TcpConnection → List TcpConnection
set_object h c [] = []
set_object zero c (d ∷ cs) = c ∷ cs
set_object (suc h) c (d ∷ cs) = d ∷ set_object h c cs

abbrev pub update : ℕ → TcpConnection → TcpForwarder → TcpForwarder
update h c f = record f { objects = set_object h c f.objects }

abbrev pub new_forwarder : ℕ → TcpForwarder
new_forwarder port = record {
  target_port = port;
  has_send_callback = false;
  connections = [];
  objects = [];
}

unfoldable pub set_send_callback : TcpForwarder → TcpForwarder
set_send_callback f = record f { has_send_callback = true }

-- `make_shared<TCPConnection>()`, with the socket that is not open yet.
abbrev pub new_connection : Bytes → TcpConnection
new_connection id = record {
  connection_id = id;
  is_open = false;
  sequence_number = 0;
  closing = false;
  connected = false;
  pending_data = [];
}

unfoldable pub handle_tcp_open : Bytes → ℕ → TcpForwarder → Handled
handle_tcp_open id target_port f =
    let h = length f.objects in
    let port = if ltb 0 target_port then target_port else f.target_port in
    (
      resolve h id port ∷ [],
      record f {
        connections = insert id h f.connections;
        objects = f.objects ++ (new_connection id ∷ []);
      },
    )

unfoldable pub close_object : ℕ → TcpForwarder → TcpForwarder
close_object h f = elim (object h f.objects) [
  | none ↦ f
  | some c ↦ update h (record c { is_open = false }) f
]

unfoldable pub close_connection : Bytes → TcpForwarder → TcpForwarder
unfolding close_object
close_connection id f = elim (find id f.connections) [
  | none ↦ f
  | some h ↦ record (close_object h f) { connections = erase id f.connections }
]

unfoldable pub handle_tcp_data : Bytes → Bytes → TcpForwarder → Handled
handle_tcp_data id bytes f = elim (find id f.connections) [
  | none ↦ ([], f)
  | some h ↦ elim (object h f.objects) [
    | none ↦ ([], f)
    | some c ↦
        if c.connected
        then (write h argument bytes ∷ [], f)
        else ([], update h (record c { pending_data = c.pending_data ++ (bytes ∷ []) }) f)
  ]
]

unfoldable pub handle_tcp_close : Bytes → TcpForwarder → Handled
handle_tcp_close id f = ([], close_connection id f)

unfoldable pub handle_tcp_error : Bytes → ℕ → Bytes → TcpForwarder → Handled
handle_tcp_error id error_code message f = ([], close_connection id f)

-- `lock()` of a weak pointer: once connected, the map's entry for the id is the only owner.
abbrev pub lock : ℕ → TcpForwarder → Option TcpConnection
lock h f = elim (object h f.objects) [
  | none ↦ none
  | some c ↦ elim (find c.connection_id f.connections) [
    | none ↦ none
    | some g ↦ if g == h then some c else none
  ]
]

-- The completion of a write of `handle_tcp_data`. That of a flushed write only logs.
unfoldable pub on_written : ℕ → Bytes → Bool → TcpForwarder → Handled
on_written h id failed f = elim (lock h f) [
  | none ↦ ([], f)
  | some c ↦ if failed then ([], close_connection id f) else ([], f)
]

unfoldable pub start_local_read : ℕ → TcpForwarder → List Action
start_local_read h f = elim (object h f.objects) [
  | none ↦ []
  | some c ↦ if c.is_open then read h ∷ [] else []
]

-- The loop over `pending_data`, from the element with this number on.
unfoldable pub flush_from : ℕ → ℕ → List Bytes → List Action
flush_from h i [] = []
flush_from h i (bytes ∷ rest) = write h (pending i) bytes ∷ flush_from h (suc i) rest

-- `async_connect` closes the socket and opens it again for each endpoint that it tries, so the
-- socket is open when it reports success.
unfoldable pub flush : ℕ → TcpConnection → List Action
unfolding flush_from
flush h c = flush_from h 0 c.pending_data

module _ (host : Host) where
  open host.order use {hton16, hton32}

  unfoldable pub send_tcp_data_frame : Bytes → Bytes → ℕ → TcpForwarder → List Action
  send_tcp_data_frame id bytes sequence_number f =
      if f.has_send_callback
      then send (
          tcp_data
          ∷ (id
              ++ (host.image32 (hton32 sequence_number)
                  ++ (host.image32 (hton32 (length bytes % 2 ^ 32)) ++ bytes))))
        ∷ []
      else []

  unfoldable pub send_tcp_close_frame : Bytes → ℕ → TcpForwarder → List Action
  send_tcp_close_frame id reason f =
      if f.has_send_callback
      then send (tcp_close ∷ (id ++ host.image16 (hton16 reason))) ∷ []
      else []

  -- The completion of `async_resolve`.
  unfoldable pub on_resolved : ℕ → Bytes → Bool → TcpForwarder → Handled
  on_resolved h id failed f =
      if failed then (send_tcp_close_frame id 1 f, f) else (connect h id ∷ [], f)

  -- The completion of `async_connect`.
  unfoldable pub on_connected : ℕ → Bytes → Bool → TcpForwarder → Handled
  on_connected h id failed f = elim (object h f.objects) [
    | none ↦ ([], f)
    | some c ↦ if failed then (send_tcp_close_frame id 1 f, f) else (
      flush h c
          ++ start_local_read h
              (update h (record c { is_open = true; connected = true; pending_data = [] }) f),
      update h (record c { is_open = true; connected = true; pending_data = [] }) f,
    )
  ]

  -- The completion of `async_read_some`: an error, end of file among them, or the bytes.
  unfoldable pub on_local_read : ℕ → Option Bytes → TcpForwarder → Handled
  on_local_read h outcome f = elim (lock h f) [
    | none ↦ ([], f)
    | some c ↦ elim outcome [
      | none ↦ (send_tcp_close_frame c.connection_id 0 f, close_connection c.connection_id f)
      | some bytes ↦ (
        send_tcp_data_frame c.connection_id bytes c.sequence_number f ++ start_local_read h f,
        update h (record c { sequence_number = (c.sequence_number + 1) % 2 ^ 32 }) f,
      )
    ]
  ]

-- The destructor closes what the map holds, and drops it.
unfoldable pub destroy : TcpForwarder → TcpForwarder
unfolding close_object
destroy f = record (close_all f.connections f) { connections = [] }
  where
    close_all : Map ℕ → TcpForwarder → TcpForwarder
    close_all [] f = f
    close_all ((id, h) ∷ rest) f = close_all rest (close_object h f)
