-- ===== src/Agent/Bounds.antt =====
-- Any bytes at `handle_read` of tunnel-agent/src/client/http2_session.cpp.
use protogate.Agent.Rounds.{next_frame_bounds, process-stop, size_reads-nothing}
use protogate.Agent.Stream.{
  frame_size, handle_tcp_frame, next_frame, process_from, process_tcp_frames, handle_read,
  is_tcp_frame,
}
use protogate.Agent.{
  Call, handle_tcp_open, handle_tcp_data, handle_tcp_close, handle_tcp_error, over_read,
}
use protogate.Base.{
  ℕ, zero, suc, ◌+◌, ◌<◌, ◌≤◌, ◌≡◌, ◌≢◌, sym, ◌∙◌, Bool, true, false, false≢true, List, [], ◌∷◌,
  arith, Option-cases, inl, inr, none, some, length, take, drop, length-take, get_or-take, All,
  All-append, All-drop, Bool-cases,
}
use protogate.Wire.Integers.{IsBytes}
use protogate.Wire.{Bytes, tcp_data, byte_at, get32}

abbrev InBounds : Call → Type 0
InBounds c = c ≢ over_read

pub get32-take : (n i : ℕ) (b : Bytes) → i + 4 ≤ n → get32 (take n b) i ≡ get32 b i
unfolding get32
get32-take n i b h = ground (
  arith,
  get_or-take n i b 0 (omega arith),
  get_or-take n (i + 1) b 0 (omega arith),
  get_or-take n (i + 2) b 0 (omega arith),
  get_or-take n (i + 3) b 0 (omega arith),
)

in_bounds : List Call → Bool
in_bounds [] = true
in_bounds (over_read ∷ calls) = false
in_bounds (c ∷ calls) = in_bounds calls

in_bounds_sound : (calls : List Call) → in_bounds calls ≡ true → All InBounds calls
unfolding in_bounds
in_bounds_sound [] h = tt
in_bounds_sound (over_read ∷ calls) h = absurd (false≢true h)
in_bounds_sound (handle_tcp_open id port ∷ calls) h = (λ e. cc, in_bounds_sound calls h)
in_bounds_sound (handle_tcp_data id payload ∷ calls) h = (λ e. cc, in_bounds_sound calls h)
in_bounds_sound (handle_tcp_close id ∷ calls) h = (λ e. cc, in_bounds_sound calls h)
in_bounds_sound (handle_tcp_error id n message ∷ calls) h = (λ e. cc, in_bounds_sound calls h)

-- A data frame that is handled is at least as long as it says.
IsWhole : Bytes → Type 0
IsWhole f = byte_at f 0 ≡ tcp_data → 25 + get32 f 21 ≤ length f

handle_in_bounds : (w : Bool) (f : Bytes) → IsWhole f → in_bounds (handle_tcp_frame w f) ≡ true
unfolding handle_tcp_frame in_bounds IsWhole
handle_in_bounds w f whole = ground arith

next_frame_data :
    (b : Bytes) (size : ℕ)
    → next_frame b ≡ some size
    → byte_at b 0 ≡ tcp_data
    → 25 + get32 b 21 ≡ size
unfolding next_frame frame_size
next_frame_data b size e t = ground arith

next_frame-IsWhole : (b : Bytes) (size : ℕ) → next_frame b ≡ some size → IsWhole (take size b)
unfolding IsWhole
next_frame-IsWhole b size e t =
    let (some_byte, fits) = next_frame_bounds b size e in
    let first : byte_at (take size b) 0 ≡ byte_at b 0 = get_or-take size 0 b 0 some_byte in
    let says : 25 + get32 b 21 ≡ size = next_frame_data b size e (sym first ∙ t) in
    rw (get32-take size 21 b (omega arith)) (omega (arith, length-take size b))

handle-InBounds :
    (w : Bool) (b : Bytes) (size : ℕ)
    → next_frame b ≡ some size
    → All InBounds (handle_tcp_frame w (take size b))
handle-InBounds w b size e =
    in_bounds_sound _ (handle_in_bounds w (take size b) (next_frame-IsWhole b size e))

process-InBounds :
    (fuel : ℕ) (w : Bool) (b : Bytes) → IsBytes b → All InBounds (process_from fuel w b).1
unfolding process_from
process-InBounds zero w b bytes = tt
process-InBounds (suc fuel) w b bytes = elim (Option-cases (next_frame b)) [
  | inl stop ↦ rw (process_from, stop, size_reads-nothing b) tt
  | inr (size, go) ↦
      rw (go, process_from)
        (All-append InBounds _ _ (handle-InBounds w b size go)
          (process-InBounds fuel w (drop size b) (All-drop (λ x. x < 256) size b bytes)))
]

-- No bytes make the agent read past the end of a frame.
pub handle_read-InBounds :
    (w : Bool) (b : Bytes) → IsBytes b → All (λ c. c ≢ over_read) (handle_read w b).0
unfolding handle_read process_tcp_frames
handle_read-InBounds w b bytes = elim (Bool-cases (is_tcp_frame b)) [
  | inl tcp ↦ rw tcp (process-InBounds (length b) w b bytes)
  | inr other ↦ rw other tt
]

-- A read that begins with a tunnel frame of which a part is still missing makes no call, and all of
-- it is fed to the HTTP/2 library.
pub handle_read_incomplete :
    (w : Bool) (b : Bytes) → is_tcp_frame b ≡ true → next_frame b ≡ none → handle_read w b ≡ ([], b)
unfolding handle_read
handle_read_incomplete w b tcp stop = rw (tcp, process-stop w b stop)
