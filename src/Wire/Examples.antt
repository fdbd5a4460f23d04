-- ===== src/Wire/Examples.antt =====
-- The theorems about frames at concrete frames, and test runs.
use protogate.Wire.ConnectionId.{connection_id_to_string}
use protogate.Base.{
  codes, ◌≤◌, ◌^◌, ◌-◌, ◌≡◌, ◌↔◌, refl, [], ◌∷◌, ◌++◌, arith, length, replicate, err,
}
use protogate.Wire.DataFrames.{
  IsSendable, deserialize-serialize_data_little, deserialize_data-out_of_bounds,
}
use protogate.Wire.Frames.{
  TcpOpenFrame, TcpCloseFrame, TcpErrorFrame, TcpAckFrame, TcpDataFrame, serialize_data,
  deserialize_data,
}
use protogate.Wire.Hosts.{little_endian}
use protogate.Wire.{
  Bytes, tcp_open, tcp_data, tcp_close, tcp_error, tcp_ack, incomplete_data, out_of_bounds, put32,
  get32, byte_at,
}

abbrev id : Bytes
id = 1 ∷ 2 ∷ 3 ∷ 4 ∷ replicate 12 7

abbrev open_frame : TcpOpenFrame
open_frame = record { type = tcp_open; connection_id = id; target_port = 8080 }

abbrev close_frame : TcpCloseFrame
close_frame = record { type = tcp_close; connection_id = id; reason = 3 }

abbrev error_frame : TcpErrorFrame
error_frame = record {
  type = tcp_error;
  connection_id = id;
  error_code = 2;
  message = b'n' ∷ b'o' ∷ [];
}

abbrev ack_frame : TcpAckFrame
ack_frame = record {
  type = tcp_ack;
  connection_id = id;
  ack_sequence_number = 70000;
  window_size = 65536;
}

abbrev data_frame : TcpDataFrame
data_frame = record {
  type = tcp_data;
  connection_id = id;
  sequence_number = 5;
  payload = 9 ∷ 8 ∷ [];
}

-- A data header that claims 2 ^ 32 - 1 bytes, and nothing behind it.
abbrev greedy : Bytes
greedy = tcp_data ∷ (id ++ (0 ∷ 0 ∷ 0 ∷ 0 ∷ 255 ∷ 255 ∷ 255 ∷ 255 ∷ []))

serialize_data_run :
    serialize_data data_frame ≡ 0x11 ∷ (id ++ (0 ∷ 0 ∷ 0 ∷ 5 ∷ 0 ∷ 0 ∷ 0 ∷ 2 ∷ 9 ∷ 8 ∷ []))
unfolding serialize_data put32
serialize_data_run = refl

abbrev data_frame-IsSendable : IsSendable data_frame
data_frame-IsSendable = record {
  type_is = refl;
  id_size = refl;
  sequence_fits = omega arith;
  payload_fits = omega arith;
}

deserialize-serialize_data_little_example :
    deserialize_data little_endian (serialize_data data_frame) ≡ err incomplete_data
deserialize-serialize_data_little_example =
    deserialize-serialize_data_little little_endian data_frame data_frame-IsSendable (omega arith)
      (omega arith) (λ x h. refl)

deserialize_data-out_of_bounds_example :
    (deserialize_data little_endian greedy ≡ err out_of_bounds) ↔ (
      (25 ≤ length greedy)
      × (byte_at greedy 0 ≡ tcp_data)
      × (2 ^ 32 - 25 ≤ little_endian.ntoh32 (get32 greedy 21)))
deserialize_data-out_of_bounds_example =
    deserialize_data-out_of_bounds little_endian greedy (omega arith) (omega arith)

-- The right side holds of it.
greedy_read : deserialize_data little_endian greedy ≡ err out_of_bounds
unfolding get32
greedy_read = deserialize_data-out_of_bounds_example.1 (omega arith, refl, omega arith)

abbrev uuid : Bytes
uuid = 4 ∷ 171 ∷ replicate 14 255

uuid_text : connection_id_to_string uuid ≡ codes "04abffff-ffff-ffff-ffff-ffffffffffff"
unfolding connection_id_to_string
uuid_text = refl
