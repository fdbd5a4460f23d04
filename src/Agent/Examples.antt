-- ===== src/Agent/Examples.antt =====
-- The agent's theorems at concrete bytes.
use protogate.Agent.Bounds.{handle_read-InBounds}
use protogate.Agent.Framing.{Sent, open_frame, data_frame, close_frame, stream, handle_read-stream}
use protogate.Agent.Stream.{next_frame, handle_read}
use protogate.Agent.{handle_tcp_open, handle_tcp_data, handle_tcp_close, over_read}
use protogate.Base.{◌≡◌, ◌≢◌, refl, true, List, [], ◌∷◌, ◌++◌, arith, replicate, All}
use protogate.Wire.Hosts.{little_endian}
use protogate.Wire.{Bytes, tcp_open, tcp_data, tcp_close, put16, get16}

abbrev id : Bytes
id = replicate 16 7

abbrev frames : List Sent
frames =
    data_frame
      (record { type = tcp_data; connection_id = id; sequence_number = 0; payload = 65 ∷ 66 ∷ [] })
    ∷ close_frame (record { type = tcp_close; connection_id = id; reason = 0 })
    ∷ []

abbrev first : Sent
first = open_frame (record { type = tcp_open; connection_id = id; target_port = 0 })

-- Two bytes of an HTTP/2 frame.
abbrev tail : Bytes
tail = 0 ∷ 4 ∷ []

handle_read-stream_example :
    handle_read true (stream little_endian (first ∷ frames) tail)
    ≡ (handle_tcp_open id 0 ∷ handle_tcp_data id (65 ∷ 66 ∷ []) ∷ handle_tcp_close id ∷ [], tail)
unfolding get16 put16 next_frame
handle_read-stream_example = handle_read-stream little_endian first frames tail (omega arith) refl

-- A data header that claims more bytes than there are.
abbrev cut_off : Bytes
cut_off = tcp_data ∷ (id ++ (0 ∷ 0 ∷ 0 ∷ 0 ∷ 0 ∷ 0 ∷ 0 ∷ 9 ∷ 1 ∷ []))

handle_read-InBounds_example : All (λ c. c ≢ over_read) (handle_read true cut_off).0
handle_read-InBounds_example = handle_read-InBounds true cut_off (omega arith)
