-- ===== src/Proxy.antt =====
-- The server's TCP proxy, src/proxy/tcp_proxy.h and .cpp: its connections, and what it makes its agents'
-- connections send. A pointer to a connection is its key in the map; sockets are not modelled, but
-- the writes to a client that have not completed are.
pub mod Connections
pub mod Transfer
pub mod Events
pub mod Windows
pub mod Runs
pub mod Delivery
pub mod Access
pub mod Writes
pub mod Examples
use protogate.Base.{ℕ, Bool, List, Text, Map}
use protogate.Wire.{Bytes}

pub data ConnectionState : Type 0 where
  connecting established closing closed : ConnectionState

pub record TcpConnection : Type 0 where
  pub connection_id : Text
  pub tunnel_id : Text
  pub client_ip : Text
  pub target_port : ℕ
  pub state : ConnectionState
  pub has_socket : Bool
  pub bytes_sent : ℕ
  pub bytes_received : ℕ
  pub started_at : ℕ
  pub last_activity : ℕ
  pub send_buffer : Bytes
  pub recv_buffer : Bytes
  pub send_window_size : ℕ
  pub recv_window_size : ℕ
  -- The bytes of each `async_write` to the client that has not completed, oldest first.
  pub writes : List Bytes

pub record TcpProxy : Type 0 where
  pub connections : Map TcpConnection

-- A call of the agent's connection. `over_read` and `over_erase` stand for a read or an `erase` past
-- the end of a buffer, which C++ leaves undefined.
pub data Effect : Type 0 where
  send_tcp_data : Text → Bytes → Effect
  send_tcp_close : Text → Effect
  over_read over_erase : Effect
