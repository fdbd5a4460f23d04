-- ===== src/Multiplexer/Output.antt =====
-- The output buffer over a run of calls, and a reader that takes the frames out of it again, one
-- after the other.
use protogate.Base.{
  ℕ, zero, suc, ◌≤◌, ◌≡◌, refl, List, [], ◌∷◌, ◌++◌, arith, length, drop, ◌==◌, map, sym,
  if◌then◌else◌, Option, none, some, ok, err, All, append_assoc, append-nil, length-append,
  drop_append_len,
}
use protogate.Multiplexer.RoundTrip.{
  Fits, frame_size, length-serialize, deserialize-serialize_append,
}
use protogate.Multiplexer.{
  MuxFrame, Multiplexer, created, serialize, deserialize, send_tcp_data, send_tcp_close,
  send_tcp_error, send_tcp_window, get_output_data, type_data, type_close, type_error, type_window,
}
use protogate.Wire.{Bytes, put32}

-- A call that queues a frame, and the frame.
pub data Send : Type 0 where
  data_of : Bytes → Bytes → Send
  close_of : Bytes → Send
  error_of : Bytes → Bytes → Send
  window_of : Bytes → ℕ → Send

abbrev pub frame_of : Send → MuxFrame
frame_of (data_of id bytes) = record { type = type_data; connection_id = id; payload = bytes }
frame_of (close_of id) = record { type = type_close; connection_id = id; payload = [] }
frame_of (error_of id message) = record { type = type_error; connection_id = id; payload = message }
frame_of (window_of id size) = record {
  type = type_window;
  connection_id = id;
  payload = put32 size;
}

unfoldable pub queue : List Send → Multiplexer → Multiplexer
queue [] m = m
queue (data_of id bytes ∷ calls) m = queue calls (send_tcp_data id bytes m)
queue (close_of id ∷ calls) m = queue calls (send_tcp_close id m)
queue (error_of id message ∷ calls) m = queue calls (send_tcp_error id message m)
queue (window_of id size ∷ calls) m = queue calls (send_tcp_window id size m)

abbrev prefixed : MuxFrame → Option (List MuxFrame) → Option (List MuxFrame)
prefixed f none = none
prefixed f (some fs) = some (f ∷ fs)

-- At most so many frames from the front of a buffer, until it is empty.
unfoldable pub read_frames : ℕ → Bytes → Option (List MuxFrame)
read_frames zero buffer = if length buffer == 0 then some [] else none
read_frames (suc n) buffer = if length buffer == 0 then some [] else elim (deserialize buffer) [
  | err e ↦ none
  | ok f ↦ prefixed f (read_frames n (drop (frame_size f) buffer))
]

-- The bytes of a list of frames.
abbrev pub bytes_of : List Send → Bytes
bytes_of [] = []
bytes_of (call ∷ calls) = serialize (frame_of call) ++ bytes_of calls

queue-output :
    (calls : List Send) (m : Multiplexer)
    → (queue calls m).output_buffer ≡ m.output_buffer ++ bytes_of calls
unfolding queue send_tcp_data send_tcp_close send_tcp_error send_tcp_window
queue-output [] m = sym (append-nil m.output_buffer)
queue-output (data_of id bytes ∷ calls) m = rw (queue-output calls, append_assoc) refl
queue-output (close_of id ∷ calls) m = rw (queue-output calls, append_assoc) refl
queue-output (error_of id message ∷ calls) m = rw (queue-output calls, append_assoc) refl
queue-output (window_of id size ∷ calls) m = rw (queue-output calls, append_assoc) refl

read_frames-bytes_of :
    (n : ℕ) (calls : List Send)
    → All (λ call. Fits (frame_of call)) calls
    → length calls ≤ n
    → read_frames n (bytes_of calls) ≡ some (map frame_of calls)
unfolding read_frames
read_frames-bytes_of zero [] fits h = refl
read_frames-bytes_of (suc n) [] fits h = refl
read_frames-bytes_of zero (call ∷ calls) fits h = absurd (omega arith)
read_frames-bytes_of (suc n) (call ∷ calls) (fit, fits) h = ground (
  arith,
  length-append (serialize (frame_of call)) (bytes_of calls),
  length-serialize (frame_of call),
  deserialize-serialize_append (frame_of call) (bytes_of calls) fit,
  drop_append_len (frame_size (frame_of call)) (serialize (frame_of call)) (bytes_of calls)
      (length-serialize (frame_of call)),
  read_frames-bytes_of n calls fits (omega arith),
)

-- After any sequence of `send_tcp_...` calls whose ids are below 2 ^ 16 bytes and whose payloads are
-- below 2 ^ 32 bytes, `get_output_data` hands out bytes that read back, frame by frame, as the
-- frames of the calls in their order, and it leaves nothing to write.
pub get_output_data-queue :
    (calls : List Send)
    → All (λ call. Fits (frame_of call)) calls
    → (read_frames (length calls) (get_output_data (queue calls created)).0
        ≡ some (map frame_of calls))
      × ((get_output_data (queue calls created)).1.output_buffer ≡ [])
unfolding get_output_data
get_output_data-queue calls fits = (
  rw (queue-output calls created) (read_frames-bytes_of (length calls) calls fits (omega arith)),
  refl,
)
