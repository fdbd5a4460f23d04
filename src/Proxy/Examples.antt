-- ===== src/Proxy/Examples.antt =====
-- The theorems on the proxy at one tunnel with one connection.
use protogate.Agent.Stream.{handle_read, full_read}
use protogate.Allowlist.Access.{TextCovers}
use protogate.Allowlist.Examples.{raw_pton}
use protogate.Allowlist.Lists.{from_cidr_list}
use protogate.Allowlist.{Pton, ipv4, is_allowed, c_str}
use protogate.Base.{
  err, none-ne-some, ap, ◌∙◌, ℕ, ◌+◌, ◌≤◌, ◌≡◌, ◌≢◌, refl, Bool, true, false, List, [], ◌∷◌, ◌++◌,
  arith, some, none, length, replicate, take, Text, codes, find, ok, Any, Option,
}
use protogate.Models.Tunnel.{Tunnel, tcp, active}
use protogate.Proxy.Access.{create_connection-TextCovers}
use protogate.Proxy.Connections.{
  open_message, ip_not_allowed, new_proxy, fresh_connection, create_connection,
}
use protogate.Proxy.Delivery.{sent_frame, send_data-handle_read}
use protogate.Proxy.Events.{Event, create, open_sent, run, step, handle_agent_data}
use protogate.Proxy.Transfer.{send_data}
use protogate.Proxy.Runs.{run-bytes_sent}
use protogate.Proxy.Writes.{writes_of, handle_agent_data-twice}
use protogate.Proxy.{
  TcpConnection, TcpProxy, Effect, send_tcp_data, established, connecting, closed,
}
use protogate.Storage.Cache.{Cache, get}
use protogate.Wire.ConnectionId.{connection_id_to_string}
use protogate.Wire.Frames.{serialize_data}
use protogate.Wire.Hosts.{little_endian}
use protogate.Wire.{Bytes, tcp_data, get32}

-- Reads no text as an address.
abbrev pub no_pton : Pton
no_pton = record {
  pton4 = λ s. none;
  pton6 = λ s. none;
  pton4_size = λ s b e. absurd (none-ne-some e);
  pton6_size = λ s b e. absurd (none-ne-some e);
  pton4_bytes = λ s b e. absurd (none-ne-some e);
  pton6_bytes = λ s b e. absurd (none-ne-some e);
}

abbrev uuid : Bytes
uuid = replicate 16 255

abbrev id : Text
id = codes "ffffffff-ffff-ffff-ffff-ffffffffffff"

abbrev everyone : Text → Bool
everyone tunnel_id = true

abbrev pub db : Tunnel
db = record {
  tunnel_id = codes "db";
  protocol = tcp;
  target_host = codes "h";
  target_port = 5432;
  ip_allowlist = [];
  rate_limit_rpm = 60;
  created_at = 1;
  updated_at = 1;
  status = active;
}

abbrev pub tunnels : Cache Tunnel
tunnels = record {
  entries = (codes "db", record { value = db; expires_at = 100 }) ∷ [];
  default_ttl = 50;
}

abbrev opening : List (ℕ × Event)
opening =
    (7, create tunnels everyone (codes "db") (some (codes "1.2.3.4")) uuid) ∷ (8, open_sent id) ∷ []

abbrev connection : TcpConnection
connection = fresh_connection 7 id (codes "db") (codes "1.2.3.4") 0 established

abbrev proxy : TcpProxy
proxy = record { connections = (id, connection) ∷ [] }

there : find id proxy.connections ≡ some connection
unfolding find protogate.Base.text_eq
there = refl

opens : run no_pton little_endian everyone opening new_proxy ≡ proxy
unfolding run step new_proxy create_connection connection_id_to_string
    protogate.Proxy.Connections.opened find protogate.Proxy.Connections.admit get
    protogate.Base.text_eq protogate.Proxy.Connections.validate_ip_allowlist protogate.Base.insert
opens = refl

run-bytes_sent_example :
    (connection.bytes_sent ≡ 0)
    × (connection.bytes_sent ≤ 65536)
    × (0 ≤ 65536)
    × (established ≢ closed)
run-bytes_sent_example =
    run-bytes_sent no_pton little_endian everyone opening id connection
      (ap (λ (p : TcpProxy). find id p.connections) opens ∙ there)

-- More bytes than the agent's buffer takes in one read.
abbrev chunk : Bytes
chunk = replicate 8192 120

send_data-handle_read_example :
    let frame = serialize_data (sent_frame uuid connection (take 8192 chunk)) in
    ((send_data everyone 9 id chunk proxy).1 ≡ 8192)
    × ((send_data everyone 9 id chunk proxy).2 ≡ send_tcp_data id frame ∷ [])
    × (handle_read true (full_read frame) ≡ ([], full_read frame))
unfolding connection_id_to_string
send_data-handle_read_example =
    send_data-handle_read everyone 9 uuid chunk connection proxy (omega arith) refl there
      (refl, refl, refl, omega arith, omega arith, λ s. cc) refl refl (omega arith) (omega arith)

-- Two data frames with the payloads "ab" and "c".
abbrev frame_ab : Bytes
frame_ab = tcp_data ∷ (uuid ++ (0 ∷ 0 ∷ 0 ∷ 0 ∷ 0 ∷ 0 ∷ 0 ∷ 2 ∷ codes "ab"))

abbrev frame_c : Bytes
frame_c = tcp_data ∷ (uuid ++ (0 ∷ 0 ∷ 0 ∷ 2 ∷ 0 ∷ 0 ∷ 0 ∷ 1 ∷ codes "c"))

handle_agent_data-twice_example :
    writes_of id (handle_agent_data 10 id frame_c (handle_agent_data 9 id frame_ab proxy).0).0
    ≡ codes "ab" ∷ codes "abc" ∷ []
unfolding get32
handle_agent_data-twice_example =
    handle_agent_data-twice 9 10 id frame_ab frame_c (codes "ab") (codes "c") connection proxy there
      refl refl refl (refl, refl, refl) (refl, refl, refl) (omega arith) (omega arith) (omega arith)
      (omega arith)

-- The same tunnel with an allowlist, of addresses as `raw_pton` reads them.
abbrev pub guarded : Cache Tunnel
guarded = record tunnels {
  entries =
      (
        codes "db",
        record { value = record db { ip_allowlist = codes "abc4/20" ∷ [] }; expires_at = 100 },
      )
      ∷ [];
}

guarded_entry :
    get 7 (codes "db") guarded ≡ some (record db { ip_allowlist = codes "abc4/20" ∷ [] })
unfolding get find protogate.Base.text_eq
guarded_entry = refl

lets_in :
    create_connection raw_pton little_endian everyone 7 guarded everyone
      (codes "db")
      (some (codes "abcd"))
      uuid
      new_proxy
    ≡ ok (
      record {
        connections = (id, fresh_connection 7 id (codes "db") (codes "abcd") 0 connecting) ∷ [];
      },
      open_message raw_pton little_endian everyone uuid ∷ [],
    )
unfolding create_connection protogate.Proxy.Connections.admit get find protogate.Base.text_eq
    protogate.Proxy.Connections.validate_ip_allowlist from_cidr_list
    protogate.Allowlist.Parse.parse_cidr protogate.Allowlist.parse_ipv4 c_str is_allowed
    protogate.Allowlist.any_match protogate.Allowlist.matches_cidr
    protogate.Allowlist.zero_host_bits protogate.Allowlist.equal_below
    protogate.Proxy.Connections.store protogate.Base.insert new_proxy
    protogate.Allowlist.Lists.add_cidr protogate.Allowlist.parse_ipv6
    protogate.Proxy.Connections.or_throw connection_id_to_string
lets_in = refl

keeps_out :
    create_connection raw_pton little_endian everyone 7 guarded everyone
      (codes "db")
      (some (codes "xbcd"))
      uuid
      new_proxy
    ≡ err ip_not_allowed
unfolding create_connection protogate.Proxy.Connections.admit get find protogate.Base.text_eq
    protogate.Proxy.Connections.validate_ip_allowlist from_cidr_list
    protogate.Allowlist.Parse.parse_cidr protogate.Allowlist.parse_ipv4 c_str is_allowed
    protogate.Allowlist.any_match protogate.Allowlist.matches_cidr
    protogate.Allowlist.zero_host_bits protogate.Allowlist.equal_below
keeps_out = refl

create_connection-TextCovers_example :
    (everyone (codes "db") ≡ true)
    × Any (TextCovers raw_pton ipv4 (codes "abcd")) (codes "abc4/20" ∷ [])
unfolding c_str
create_connection-TextCovers_example =
    create_connection-TextCovers raw_pton little_endian everyone 7 guarded everyone (codes "db")
      (codes "abcd") uuid new_proxy
      (
        record {
          connections = (id, fresh_connection 7 id (codes "db") (codes "abcd") 0 connecting) ∷ [];
        },
        open_message raw_pton little_endian everyone uuid ∷ [],
      )
      (record db { ip_allowlist = codes "abc4/20" ∷ [] }) (codes "abc4/20") [] ipv4 (codes "abcd")
      lets_in guarded_entry refl refl
