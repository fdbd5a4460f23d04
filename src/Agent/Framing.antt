-- ===== src/Agent/Framing.antt =====
-- Sequences of the server's frames at `handle_read` of tunnel-agent/src/client/http2_session.cpp.
use protogate.Agent.Rounds.{process-step, process-stop}
use protogate.Agent.Stream.{
  frame_size, handle_tcp_frame, next_frame, process_tcp_frames, handle_read, is_tcp_frame,
}
use protogate.Agent.{Call, handle_tcp_open, handle_tcp_data, handle_tcp_close}
use protogate.Base.{
  ℕ, ◌+◌, ◌%◌, ◌^◌, ◌≤◌, ◌≡◌, refl, ◌∙◌, true, List, [], ◌∷◌, ◌++◌, arith, none, some, length, drop,
  length-append, take_append_len, drop_append_len, drop-add, append_assoc, All, append-nil,
  take_all,
}
use protogate.Wire.Integers.{get32_at, get16-drop}
use protogate.Wire.Frames.{
  TcpOpenFrame, serialize_open, TcpDataFrame, serialize_data, TcpCloseFrame, serialize_close,
  TcpAckFrame, serialize_ack,
}
use protogate.Wire.RoundTrip.{drop_17, drop_21, drop_two32}
use protogate.Wire.{
  ByteOrder, put16, put32, Bytes, get16, get32, tcp_open, tcp_data, tcp_close, tcp_ack,
}

-- The frames that the server writes, as it writes them.
pub data Sent : Type 0 where
  open_frame : TcpOpenFrame → Sent
  data_frame : TcpDataFrame → Sent
  close_frame : TcpCloseFrame → Sent
  ack_frame : TcpAckFrame → Sent

-- With its own type, a 16-byte id, and at most 65536 bytes of data.
abbrev pub IsSent : Sent → Type 0
IsSent (open_frame f) = (f.type ≡ tcp_open) × (length f.connection_id ≡ 16)
IsSent (data_frame f) =
    (f.type ≡ tcp_data) × (length f.connection_id ≡ 16) × (length f.payload ≤ 65536)
IsSent (close_frame f) = (f.type ≡ tcp_close) × (length f.connection_id ≡ 16)
IsSent (ack_frame f) = (f.type ≡ tcp_ack) × (length f.connection_id ≡ 16)

module _ (order : ByteOrder) where
  open order use {hton16, hton32, hton16_lt}

  abbrev pub encode : Sent → Bytes
  encode (open_frame f) = serialize_open order f
  encode (data_frame f) = serialize_data f
  encode (close_frame f) = serialize_close order f
  encode (ack_frame f) = serialize_ack order f

  -- What the agent's forwarder is asked to do. The port is the one on the wire.
  abbrev pub calls_of : Sent → List Call
  calls_of (open_frame f) =
      handle_tcp_open f.connection_id (get16 (put16 (hton16 f.target_port)) 0) ∷ []
  calls_of (data_frame f) = handle_tcp_data f.connection_id f.payload ∷ []
  calls_of (close_frame f) = handle_tcp_close f.connection_id ∷ []
  calls_of (ack_frame f) = []

  size_of : Sent → ℕ
  size_of (open_frame f) = 19
  size_of (data_frame f) = 25 + length f.payload
  size_of (close_frame f) = 19
  size_of (ack_frame f) = 25

  length-encode : (s : Sent) → IsSent s → length (encode s) ≡ size_of s
  unfolding size_of serialize_open serialize_data serialize_close serialize_ack put16 put32
  length-encode (open_frame f) h =
      omega (arith, length-append f.connection_id (put16 (hton16 f.target_port)))
  length-encode (data_frame f) h = omega (
    arith,
    length-append f.connection_id
        (put32 f.sequence_number ++ (put32 (length f.payload % 2 ^ 32) ++ f.payload)),
  )
  length-encode (close_frame f) h =
      omega (arith, length-append f.connection_id (put16 (hton16 f.reason)))
  length-encode (ack_frame f) h = omega (
    arith,
    length-append f.connection_id
        (put32 (hton32 f.ack_sequence_number) ++ put32 (hton32 f.window_size)),
  )

  pub length-serialize_data :
      (f : TcpDataFrame) → IsSent (data_frame f) → length (serialize_data f) ≡ 25 + length f.payload
  unfolding size_of
  length-serialize_data f h = length-encode (data_frame f) h

  -- The length field of a data frame, with more bytes behind the frame.
  pub data_length :
      (f : TcpDataFrame) (rest : Bytes)
      → IsSent (data_frame f)
      → get32 (serialize_data f ++ rest) 21 ≡ length f.payload
  unfolding serialize_data
  data_length f rest (t, id, small) =
      let n = put32 (length f.payload % 2 ^ 32) in
      let seq = put32 f.sequence_number in
      let front = drop_21 f.type f.connection_id id f.sequence_number (n ++ (f.payload ++ rest)) in
      get32_at 21 (serialize_data f ++ rest) (f.payload ++ rest) (length f.payload % 2 ^ 32)
        (rw
          (
            append_assoc f.connection_id (seq ++ (n ++ f.payload)) rest,
            append_assoc seq (n ++ f.payload) rest,
            append_assoc n f.payload rest,
          )
          front)
        (omega arith)
      ∙ omega arith

  -- The reader finds the frame that stands first.
  next_frame-encode :
      (s : Sent) (rest : Bytes) → IsSent s → next_frame (encode s ++ rest) ≡ some (size_of s)
  unfolding next_frame frame_size size_of serialize_open serialize_data serialize_close
      serialize_ack
  next_frame-encode (open_frame f) rest h =
      ground (arith, length-encode (open_frame f) h, length-append (encode (open_frame f)) rest)
  next_frame-encode (data_frame f) rest h = ground (
    arith,
    length-encode (data_frame f) h,
    length-append (encode (data_frame f)) rest,
    data_length f rest h,
  )
  next_frame-encode (close_frame f) rest h =
      ground (arith, length-encode (close_frame f) h, length-append (encode (close_frame f)) rest)
  next_frame-encode (ack_frame f) rest h =
      ground (arith, length-encode (ack_frame f) h, length-append (encode (ack_frame f)) rest)

  handle-encode : (s : Sent) → IsSent s → handle_tcp_frame true (encode s) ≡ calls_of s
  unfolding handle_tcp_frame size_of serialize_open serialize_data serialize_close serialize_ack
  handle-encode (open_frame f) h =
      let port = put16 (hton16 f.target_port) in
      ground (
        arith,
        length-encode (open_frame f) h,
        take_append_len 16 f.connection_id port h.1,
        get16-drop 17 (encode (open_frame f)),
        drop_17 f.type f.connection_id h.1 port,
      )
  handle-encode (data_frame f) h =
      let n = put32 (length f.payload % 2 ^ 32) in
      let seq = put32 f.sequence_number in
      ground (
        arith,
        length-encode (data_frame f) h,
        take_append_len 16 f.connection_id (seq ++ (n ++ f.payload)) h.1,
        data_length f [] h,
        append-nil (encode (data_frame f)),
        drop_two32 f.type f.connection_id h.1 f.sequence_number (length f.payload % 2 ^ 32)
            f.payload,
        take_all (length f.payload) f.payload (omega arith),
      )
  handle-encode (close_frame f) h = ground (
    arith,
    length-encode (close_frame f) h,
    take_append_len 16 f.connection_id (put16 (hton16 f.reason)) h.1,
  )
  handle-encode (ack_frame f) h = ground (arith, length-encode (ack_frame f) h)

  -- The bytes of the frames in their order, and what follows them.
  abbrev pub stream : List Sent → Bytes → Bytes
  stream [] tail = tail
  stream (s ∷ sent) tail = encode s ++ stream sent tail

  abbrev pub all_calls : List Sent → List Call
  all_calls [] = []
  all_calls (s ∷ sent) = calls_of s ++ all_calls sent

  total : List Sent → ℕ
  total [] = 0
  total (s ∷ sent) = size_of s + total sent

  process-stream :
      (sent : List Sent) (tail : Bytes)
      → All IsSent sent
      → next_frame tail ≡ none
      → process_tcp_frames true (stream sent tail) ≡ (total sent, all_calls sent)
  unfolding total
  process-stream [] tail h stop = process-stop true tail stop
  process-stream (s ∷ sent) tail (h, hs) stop = rw (
    process-step true (encode s ++ stream sent tail) (size_of s)
        (next_frame-encode s (stream sent tail) h),
    take_append_len (size_of s) (encode s) (stream sent tail) (length-encode s h),
    drop_append_len (size_of s) (encode s) (stream sent tail) (length-encode s h),
    handle-encode s h,
    process-stream sent tail hs stop,
  )

  drop-total :
      (sent : List Sent) (tail : Bytes)
      → All IsSent sent
      → drop (total sent) (stream sent tail) ≡ tail
  unfolding total
  drop-total [] tail h = refl
  drop-total (s ∷ sent) tail (h, hs) = rw (
    drop-add (size_of s) (total sent) (encode s ++ stream sent tail),
    drop_append_len (size_of s) (encode s) (stream sent tail) (length-encode s h),
    drop-total sent tail hs,
  )

  is_tcp_frame-encode :
      (s : Sent) (rest : Bytes) → IsSent s → is_tcp_frame (encode s ++ rest) ≡ true
  unfolding is_tcp_frame serialize_open serialize_data serialize_close serialize_ack
  is_tcp_frame-encode (open_frame f) rest h = ground arith
  is_tcp_frame-encode (data_frame f) rest h = ground arith
  is_tcp_frame-encode (close_frame f) rest h = ground arith
  is_tcp_frame-encode (ack_frame f) rest h = ground arith

  -- One read that holds whole frames of the server and then bytes with no whole frame in front hands
  -- each frame to the forwarder, in order, and the bytes behind them to the HTTP/2 library.
  pub handle_read-stream :
      (s : Sent) (sent : List Sent) (tail : Bytes)
      → All IsSent (s ∷ sent)
      → next_frame tail ≡ none
      → handle_read true (stream (s ∷ sent) tail) ≡ (all_calls (s ∷ sent), tail)
  unfolding handle_read
  handle_read-stream s sent tail h stop = rw (
    is_tcp_frame-encode s (stream sent tail) h.0,
    process-stream (s ∷ sent) tail h stop,
    drop-total (s ∷ sent) tail h,
  )
