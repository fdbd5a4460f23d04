-- ===== src/Agent/Stream.antt =====
-- `is_tcp_frame`, `process_tcp_frames`, `handle_tcp_frame` and the dispatch of `handle_read`
-- (tunnel-agent/src/client/http2_session.cpp). The HTTP/2 library is not modelled: `handle_read`
-- says which bytes it is fed.
use protogate.Agent.{
  Call, handle_tcp_open, handle_tcp_data, handle_tcp_close, handle_tcp_error, over_read,
}
use protogate.Base.{
  ℕ, zero, suc, ◌+◌, ◌%◌, ◌^◌, Bool, false, not, ◌&&◌, ◌||◌, List, [], ◌∷◌, ◌++◌, Option, none,
  some, length, take, drop, ltb, leb, ◌==◌, if◌then◌else◌,
}
use protogate.Wire.{
  Byte, Bytes, byte_at, get16, get32, tcp_open, tcp_data, tcp_close, tcp_error, tcp_ack,
}

unfoldable pub is_tcp_type : Byte → Bool
is_tcp_type t = leb 0x10 t && leb t 0x14

unfoldable pub is_tcp_frame : Bytes → Bool
unfolding is_tcp_type
is_tcp_frame buffer = if ltb (length buffer) 1 then false else is_tcp_type (byte_at buffer 0)

-- The first bytes are read, so many of them: `none` where the buffer ends before.
abbrev pub peek : {A : Type 0} → ℕ → Bytes → A → Option A
peek n buffer a = if ltb (length buffer) n then none else some a

-- The switch that computes `frame_size`, for the bytes that are left; 0 is "incomplete", and `none` a
-- read behind the buffer.
unfoldable pub frame_size : Bytes → Option ℕ
frame_size current =
    let type = byte_at current 0 in
    let remaining = length current in
    let data_len = get32 current 21 in
    if type == tcp_open
    then some 19
    else if type == tcp_data
    then (if leb 25 remaining
        then peek 25 current (if ltb 65536 data_len then 0 else 25 + data_len)
        else some 0)
    else if type == tcp_close
    then some 19
    else if type == tcp_error
    then (if leb 21 remaining then peek 21 current (21 + get16 current 19) else some 0)
    else if type == tcp_ack
    then some 25
    else some 0

-- The calls, if the frame has the bytes that are read before them.
abbrev pub reads : ℕ → Bytes → List Call → List Call
reads n frame calls = if ltb (length frame) n then over_read ∷ [] else calls

handle_open : Bytes → Bytes → List Call
handle_open id frame =
    if leb 19 (length frame) then reads 19 frame (handle_tcp_open id (get16 frame 17) ∷ []) else []

-- The data case: the sum in its test is a `uint32_t`.
handle_data : Bytes → Bytes → List Call
handle_data id frame =
    let data_len = get32 frame 21 in
    if leb 25 (length frame)
    then reads 25 frame (
        if leb ((25 + data_len) % 2 ^ 32) (length frame)
        then reads (25 + data_len) frame (handle_tcp_data id (take data_len (drop 25 frame)) ∷ [])
        else [])
    else []

handle_error : Bytes → Bytes → List Call
handle_error id frame =
    let msg_len = get16 frame 19 in
    let error_code = get16 frame 17 in
    if leb 21 (length frame)
    then reads 21 frame (
        if leb (21 + msg_len) (length frame)
        then reads (21 + msg_len) frame
            (handle_tcp_error id error_code (take msg_len (drop 21 frame)) ∷ [])
        else handle_tcp_error id error_code [] ∷ [])
    else []

-- The calls that a frame makes. The flag says that a forwarder is set.
unfoldable pub handle_tcp_frame : Bool → Bytes → List Call
unfolding handle_open handle_data handle_error
handle_tcp_frame forwarder frame =
    let type = byte_at frame 0 in
    let id = take 16 (drop 1 frame) in
    if ltb (length frame) 1 || not forwarder || ltb (length frame) 17
    then []
    else reads 17 frame (
        if type == tcp_open
        then handle_open id frame
        else if type == tcp_data
        then handle_data id frame
        else if type == tcp_close
        then handle_tcp_close id ∷ []
        else if type == tcp_error
        then handle_error id frame
        else [])

-- The size of the frame that the bytes begin with, or `none` where the loop breaks.
unfoldable pub next_frame : Bytes → Option ℕ
unfolding is_tcp_type
next_frame current =
    if ltb (length current) 1
    then none
    else if not (is_tcp_type (byte_at current 0))
    then none
    else elim (frame_size current) [
      | none ↦ none
      | some size ↦ if size == 0 || ltb (length current) size then none else some size
    ]

-- A read behind the buffer, where the size is computed.
unfoldable pub size_reads : Bytes → List Call
unfolding is_tcp_type
size_reads current =
    if ltb (length current) 1
    then []
    else if not (is_tcp_type (byte_at current 0))
    then []
    else elim (frame_size current) [ none ↦ over_read ∷ [] | some size ↦ [] ]

-- The loop: how many bytes it takes, and the calls that it makes.
unfoldable pub process_from : ℕ → Bool → Bytes → ℕ × List Call
process_from zero forwarder current = (0, [])
process_from (suc fuel) forwarder current = elim (next_frame current) [
  | none ↦ (0, size_reads current)
  | some size ↦
      let (consumed, calls) = process_from fuel forwarder (drop size current) in
      (size + consumed, handle_tcp_frame forwarder (take size current) ++ calls)
]

-- A frame has at least one byte, so as many rounds as there are bytes are enough.
unfoldable pub process_tcp_frames : Bool → Bytes → ℕ × List Call
process_tcp_frames forwarder buffer = process_from (length buffer) forwarder buffer

-- The size of `read_buffer_`.
abbrev pub read_buffer_size : ℕ
read_buffer_size = 8192

-- The bytes of one read, of those that have arrived: as many as the buffer holds. A read may bring
-- fewer.
unfoldable pub full_read : Bytes → Bytes
full_read arrived = take read_buffer_size arrived

-- One completed read, which has at most as many bytes as the buffer holds: the calls, and the bytes that are fed to the HTTP/2 library.
unfoldable pub handle_read : Bool → Bytes → List Call × Bytes
handle_read forwarder buffer =
    let (consumed, calls) = process_tcp_frames forwarder buffer in
    if is_tcp_frame buffer then (calls, drop consumed buffer) else ([], buffer)
