-- ===== src/AgentConnection/CloseFrame.antt =====
-- The close frame that the server writes for a connection, as the agent reads it.
use protogate.Agent.Framing.{handle_read-stream, close_frame}
use protogate.Agent.Stream.{handle_read, next_frame}
use protogate.Agent.{handle_tcp_close}
use protogate.AgentConnection.Sending
use protogate.Base.{
  ◌≤◌, ◌≡◌, ◌≢◌, refl, sym, ap, ◌∙◌, true, [], ◌∷◌, arith, length, take, length-take, get_or-take,
  append-nil, none,
}
use protogate.Wire.ConnectionId.{
  connection_id_to_string, length-connection_id_to_string, connection_id_to_string-first,
}
use protogate.Wire.Frames.{TcpCloseFrame, serialize_close}
use protogate.Wire.Hosts.{big_endian}
use protogate.Wire.Integers.{IsBytes}
use protogate.Wire.{Bytes, byte_at, tcp_close, put16}

-- The frame of the protocol with these bytes.
abbrev named : Bytes → TcpCloseFrame
named id = record { type = tcp_close; connection_id = id; reason = 0 }

close_frame_shape :
    (text : Bytes)
    → 16 ≤ length text
    → Sending.close_frame text ≡ serialize_close big_endian (named (take 16 text))
unfolding Sending.close_frame serialize_close put16
close_frame_shape text long =
    let full : length (take 16 text) ≡ 16 = omega (arith, length-take 16 text) in rw full refl

no_frame : next_frame [] ≡ none
unfolding next_frame
no_frame = refl

-- The agent reads the frame as the close of the connection whose id is the first 16 characters of the
-- id's text; for a 16-byte id that does not begin with the byte 0x33 this is another id.
pub close_frame-handle_read :
    (id : Bytes)
    → length id ≡ 16
    → IsBytes id
    → byte_at id 0 ≢ 51
    → (handle_read true (Sending.close_frame (connection_id_to_string id))
        ≡ (handle_tcp_close (take 16 (connection_id_to_string id)) ∷ [], []))
      × (take 16 (connection_id_to_string id) ≢ id)
close_frame-handle_read [] size bytes other = absurd (omega arith)
close_frame-handle_read (b ∷ id) size (small, bytes) other =
    let text = connection_id_to_string (b ∷ id) in
    let long : 16 ≤ length text = omega (arith, length-connection_id_to_string (b ∷ id)) in
    (
      rw (close_frame_shape text long) (
          ap (handle_read true)
            (sym (append-nil (serialize_close big_endian (named (take 16 text)))))
          ∙ handle_read-stream big_endian (close_frame (named (take 16 text))) [] []
              ((refl, omega (arith, length-take 16 text)), tt) no_frame),
      λ same.
          connection_id_to_string-first b id small other
            (sym (get_or-take 16 0 text 0 (omega arith)) ∙ ap (λ t. byte_at t 0) same),
    )
