-- ===== src/Agent.antt =====
-- The agent on the private side, tunnel-agent/src/client/http2_session.cpp: the frames in the bytes
-- that it reads, and the calls that they make.
pub mod Requests
pub mod Session
pub mod Headers
pub mod Pending
pub mod Received
pub mod Stream
pub mod Rounds
pub mod Framing
pub mod Bounds
pub mod Cut
pub mod Examples
pub mod Witness
use protogate.Base.{ℕ}
use protogate.Wire.{Bytes}

-- The forwarder's entry points, with their arguments. `over_read` stands for a read past the end of
-- a frame, which C++ leaves undefined.
pub data Call : Type 0 where
  handle_tcp_open : Bytes → ℕ → Call
  handle_tcp_data : Bytes → Bytes → Call
  handle_tcp_close : Bytes → Call
  handle_tcp_error : Bytes → ℕ → Bytes → Call
  over_read : Call
