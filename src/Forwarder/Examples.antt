-- ===== src/Forwarder/Examples.antt =====
-- The forwarder at concrete connections.
use protogate.Base.{
  ℕ, ◌≡◌, refl, arith, true, false, List, [], ◌∷◌, ◌++◌, some, none, codes, Option, find, Map, Text,
  Bool, length,
}
use protogate.Forwarder.Frames.{
  data_frame, send_tcp_data_frame-serialize, send_tcp_data_frame-delivered,
}
use protogate.Forwarder.Hosts.{little_endian_host}
use protogate.Forwarder.Runs.{
  Event, opened, data_came, closed, resolved, connected_to, written, local_read, run, buffers_to,
  waiting, are_gone_each, accepted_by,
}
use protogate.Forwarder.Buffers.{run-buffers_to}
use protogate.Forwarder.{
  TcpForwarder, TcpConnection, Action, send, new_forwarder, set_send_callback, send_tcp_data_frame,
  destroy, handle_tcp_data,
}
use protogate.Proxy.Connections.{fresh_connection}
use protogate.Proxy.Events.{handle_agent_tcp_frame}
use protogate.Proxy.Writes.{grown}
use protogate.Proxy.{TcpProxy, established}
use protogate.Wire.ConnectionId.{connection_id_to_string}
use protogate.Wire.Frames.{serialize_data}
use protogate.Wire.{Bytes}

abbrev id : Bytes
id = codes "0123456789abcdef"

abbrev start : TcpForwarder
start = set_send_callback (new_forwarder 5432)

-- Data comes before and after the local service answers, and a second connection opens between.
abbrev events : List Event
events =
    opened id 0
    ∷ data_came id (codes "ab")
    ∷ resolved 0 id (false)
    ∷ opened (codes "fedcba9876543210") 81
    ∷ data_came id (codes "cd")
    ∷ connected_to 0 id (false)
    ∷ data_came id (codes "ef")
    ∷ local_read 0 (some (codes "ok"))
    ∷ []

run-buffers_to_example :
    (buffers_to 0 (run little_endian_host events start).0
        ++ waiting 0 (run little_endian_host events start).1
      ≡ waiting 0 start ++ accepted_by little_endian_host 0 events start)
    × (are_gone_each little_endian_host events start ≡ true)
unfolding set_send_callback
run-buffers_to_example = run-buffers_to little_endian_host 0 events start tt

buffers_test :
    buffers_to 0 (run little_endian_host events start).0 ≡ codes "ab" ∷ codes "cd" ∷ codes "ef" ∷ []
unfolding buffers_to run protogate.Forwarder.Runs.step protogate.Forwarder.handle_tcp_open
    handle_tcp_data find protogate.Base.insert set_send_callback protogate.Base.text_eq
    protogate.Forwarder.on_resolved protogate.Forwarder.on_connected protogate.Forwarder.flush
    protogate.Forwarder.flush_from protogate.Forwarder.start_local_read
    protogate.Forwarder.on_local_read send_tcp_data_frame
buffers_test = refl

-- The frame of the local service's answer.
sent_test :
    send_tcp_data_frame little_endian_host id (codes "ok") 258 start
    ≡ send (17 ∷ (id ++ (0 ∷ 0 ∷ 1 ∷ 2 ∷ 0 ∷ 0 ∷ 0 ∷ 2 ∷ codes "ok"))) ∷ []
unfolding send_tcp_data_frame set_send_callback
sent_test = refl

sent_ok :
    send_tcp_data_frame little_endian_host id (codes "ok") 258 start
    ≡ send (serialize_data (data_frame id (codes "ok") 258)) ∷ []
unfolding set_send_callback
sent_ok =
    send_tcp_data_frame-serialize little_endian_host start refl id (codes "ok") 258 (omega arith)

abbrev server_connection : protogate.Proxy.TcpConnection
server_connection =
    fresh_connection 7 (connection_id_to_string id) (codes "db") (codes "1.2.3.4") 0 established

abbrev server : TcpProxy
server = record { connections = (connection_id_to_string id, server_connection) ∷ [] }

at_server : find (connection_id_to_string id) server.connections ≡ some server_connection
unfolding find protogate.Base.text_eq connection_id_to_string
at_server = refl

abbrev everyone : Text → Bool
everyone tunnel_id = true

send_tcp_data_frame-delivered_example :
    find
      (connection_id_to_string id)
      (handle_agent_tcp_frame everyone 9
        (serialize_data (data_frame id (codes "ok") 258))
        server).0.connections
    ≡ some (grown 9 (codes "ok") server_connection)
unfolding set_send_callback
send_tcp_data_frame-delivered_example =
    send_tcp_data_frame-delivered little_endian_host start everyone 9 258 id (codes "ok")
      (serialize_data (data_frame id (codes "ok") 258)) server_connection server refl (omega arith)
      refl sent_ok at_server refl (omega arith) (omega arith) (omega arith)

abbrev local : TcpConnection
local = record {
  connection_id = id;
  is_open = true;
  sequence_number = 4294967295;
  closing = false;
  connected = true;
  pending_data = [];
}

abbrev connected_forwarder : TcpForwarder
connected_forwarder = record {
  target_port = 5432;
  has_send_callback = true;
  connections = (id, 0) ∷ [];
  objects = local ∷ [];
}

-- A connection that the local service refuses stays in the map, and takes data for ever.
refused_test :
    waiting 0
      (run little_endian_host
        (opened id 0
          ∷ resolved 0 id (false)
          ∷ connected_to 0 id true
          ∷ data_came id (codes "ab")
          ∷ data_came id (codes "cd")
          ∷ [])
        start).1
    ≡ codes "ab" ∷ codes "cd" ∷ []
unfolding run protogate.Forwarder.Runs.step handle_tcp_data find protogate.Forwarder.on_connected
    protogate.Forwarder.on_resolved protogate.Forwarder.handle_tcp_open set_send_callback
    protogate.Base.insert protogate.Base.text_eq
refused_test = refl

destroy_test : (destroy connected_forwarder).connections ≡ []
unfolding destroy
destroy_test = refl
