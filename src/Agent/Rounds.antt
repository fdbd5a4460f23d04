-- ===== src/Agent/Rounds.antt =====
-- The rounds of the loop of `process_tcp_frames`, tunnel-agent/src/client/http2_session.cpp.
use protogate.Agent.Stream.{
  handle_tcp_frame, frame_size, size_reads, next_frame, process_from, process_tcp_frames,
}
use protogate.Base.{
  ℕ, zero, suc, ◌+◌, ◌≤◌, ◌≡◌, refl, Bool, [], ◌∷◌, ◌++◌, arith, none, some, Option-cases, inl, inr,
  length, take, drop, length-drop,
}
use protogate.Wire.{Bytes}

pub next_frame_bounds :
    (current : Bytes) (size : ℕ)
    → next_frame current ≡ some size
    → (1 ≤ size) × (size ≤ length current)
unfolding next_frame
next_frame_bounds current size e = ground arith

next_frame_empty : (current : Bytes) → length current ≤ 0 → next_frame current ≡ none
unfolding next_frame
next_frame_empty current h = ground arith

-- No read goes behind the buffer.
pub size_reads-nothing : (current : Bytes) → size_reads current ≡ []
unfolding size_reads frame_size
size_reads-nothing current = ground arith

-- More fuel than bytes changes nothing.
process_from_fuel :
    (f g : ℕ) (w : Bool) (current : Bytes)
    → length current ≤ f
    → length current ≤ g
    → process_from f w current ≡ process_from g w current
unfolding process_from
process_from_fuel zero zero w current hf hg = refl
process_from_fuel zero (suc g) w current hf hg =
    rw (process_from, next_frame_empty current hf, size_reads-nothing current) refl
process_from_fuel (suc f) zero w current hf hg =
    rw (process_from, next_frame_empty current hg, size_reads-nothing current) refl
process_from_fuel (suc f) (suc g) w current hf hg = elim (Option-cases (next_frame current)) [
  | inl stop ↦ rw (stop, process_from)
  | inr (size, go) ↦
      let b = next_frame_bounds current size go in
      let shorter = length-drop size current in
      rw (go, process_from, process_from_fuel f g w (drop size current) (omega arith) (omega arith))
]

-- One round of the loop, with the fuel that the rest needs.
pub process-step :
    (w : Bool) (current : Bytes) (size : ℕ)
    → next_frame current ≡ some size
    → process_tcp_frames w current ≡ (
      size + (process_tcp_frames w (drop size current)).0,
      handle_tcp_frame w (take size current) ++ (process_tcp_frames w (drop size current)).1,
    )
unfolding process_tcp_frames process_from
process-step w [] size e = absurd (omega (arith, next_frame_bounds [] size e))
process-step w (x ∷ current) size e =
    let b = next_frame_bounds (x ∷ current) size e in
    let shorter = length-drop size (x ∷ current) in
    rw (
      e,
      process_from,
      process_from_fuel (length current) (length (drop size (x ∷ current))) w
          (drop size (x ∷ current)) (omega arith) (omega arith),
    )

pub process-stop :
    (w : Bool) (current : Bytes)
    → next_frame current ≡ none
    → process_tcp_frames w current ≡ (0, [])
unfolding process_tcp_frames process_from
process-stop w [] e = refl
process-stop w (x ∷ current) e = rw (process_from, e, size_reads-nothing (x ∷ current)) refl
