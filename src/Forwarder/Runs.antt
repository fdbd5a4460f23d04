-- ===== src/Forwarder/Runs.antt =====
-- Sequences of the server's frames and of completions, and what they make of one connection: its
-- writes, the data that it takes, and the data that waits.
use protogate.Base.{
  ℕ, zero, suc, Bool, true, false, ◌&&◌, List, [], ◌∷◌, ◌++◌, ◌==◌, Option, none, some,
  if◌then◌else◌, find,
}
use protogate.Forwarder.{
  Host, TcpConnection, TcpForwarder, Memory, pending, argument, Action, resolve, connect, write,
  read, send, object, handle_tcp_open, handle_tcp_data, handle_tcp_close, handle_tcp_error,
  on_resolved, on_connected, on_written, on_local_read,
}
use protogate.Wire.{Bytes}

-- A frame of the server, or a completion.
pub data Event : Type 0 where
  opened : Bytes → ℕ → Event
  data_came : Bytes → Bytes → Event
  closed : Bytes → Event
  failed : Bytes → ℕ → Bytes → Event
  resolved : ℕ → Bytes → Bool → Event
  connected_to : ℕ → Bytes → Bool → Event
  written : ℕ → Bytes → Bool → Event
  local_read : ℕ → Option Bytes → Event

module _ (host : Host) where
  unfoldable pub step : Event → TcpForwarder → List Action × TcpForwarder
  step (opened id port) f = handle_tcp_open id port f
  step (data_came id bytes) f = handle_tcp_data id bytes f
  step (closed id) f = handle_tcp_close id f
  step (failed id code message) f = handle_tcp_error id code message f
  step (resolved h id fails) f = on_resolved host h id fails f
  step (connected_to h id fails) f = on_connected host h id fails f
  step (written h id fails) f = on_written h id fails f
  step (local_read h outcome) f = on_local_read host h outcome f

  unfoldable pub run : List Event → TcpForwarder → List Action × TcpForwarder
  run [] f = ([], f)
  run (e ∷ es) f =
      let (actions, f') = step e f in let (more, f'') = run es f' in (actions ++ more, f'')

-- The buffers that `async_write` is given for one connection's socket.
unfoldable pub buffers_to : ℕ → List Action → List Bytes
buffers_to h [] = []
buffers_to h (write g memory bytes ∷ actions) =
    if g == h then bytes ∷ buffers_to h actions else buffers_to h actions
buffers_to h (resolve g id port ∷ actions) = buffers_to h actions
buffers_to h (connect g id ∷ actions) = buffers_to h actions
buffers_to h (read g ∷ actions) = buffers_to h actions
buffers_to h (send frame ∷ actions) = buffers_to h actions

-- What still waits for the connection.
abbrev pub waiting_in : ℕ → List TcpConnection → List Bytes
waiting_in h [] = []
waiting_in zero (c ∷ cs) = c.pending_data
waiting_in (suc h) (c ∷ cs) = waiting_in h cs

abbrev pub waiting : ℕ → TcpForwarder → List Bytes
waiting h f = waiting_in h f.objects

abbrev pub element : ℕ → List Bytes → Option Bytes
element i [] = none
element zero (bytes ∷ rest) = some bytes
element (suc i) (bytes ∷ rest) = element i rest

-- What a buffer's memory holds after the handler that started the write.
abbrev pub held : ℕ → Memory → TcpForwarder → Option Bytes
held h (pending i) f = element i (waiting h f)
held h argument f = none

-- No write of these has its buffer any more.
unfoldable pub are_gone : List Action → TcpForwarder → Bool
are_gone [] f = true
are_gone (write h memory bytes ∷ actions) f =
    let rest = are_gone actions f in elim (held h memory f) [ none ↦ rest | some left ↦ false ]
are_gone (resolve g id port ∷ actions) f = are_gone actions f
are_gone (connect g id ∷ actions) f = are_gone actions f
are_gone (read g ∷ actions) f = are_gone actions f
are_gone (send frame ∷ actions) f = are_gone actions f

-- So it is after each handler of a run.
unfoldable pub are_gone_each : Host → List Event → TcpForwarder → Bool
are_gone_each host [] f = true
are_gone_each host (e ∷ es) f =
    let (actions, f') = step host e f in
    let rest = are_gone_each host es f' in are_gone actions f' && rest

-- The data of an event, where it is for the connection.
unfoldable pub accepted : ℕ → Event → TcpForwarder → List Bytes
accepted h (data_came id bytes) f = elim (find id f.connections) [
  | none ↦ []
  | some g ↦ elim (object g f.objects) [ none ↦ [] | some c ↦ if g == h then bytes ∷ [] else [] ]
]
accepted h (opened id port) f = []
accepted h (closed id) f = []
accepted h (failed id code message) f = []
accepted h (resolved g id fails) f = []
accepted h (connected_to g id fails) f = []
accepted h (written g id fails) f = []
accepted h (local_read g outcome) f = []

unfoldable pub accepted_by : Host → ℕ → List Event → TcpForwarder → List Bytes
accepted_by host h [] f = []
accepted_by host h (e ∷ es) f =
    let (actions, f') = step host e f in accepted h e f ++ accepted_by host h es f'
