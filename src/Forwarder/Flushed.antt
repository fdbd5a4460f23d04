-- ===== src/Forwarder/Flushed.antt =====
-- The objects of the forwarder: a connected one has nothing waiting, through every call.
use protogate.Base.{
  subst, false≢true, ℕ, ◌+◌, ◌%◌, ◌^◌, zero, suc, Bool, true, false, List, [], ◌∷◌, ◌++◌, ◌≡◌, refl,
  arith, Option, none, some, find, Option-cases, Bool-cases, All, All-append, inl, inr,
}
use protogate.Forwarder.{
  Host, TcpConnection, TcpForwarder, object, set_object, new_connection, handle_tcp_open,
  handle_tcp_data, handle_tcp_close, handle_tcp_error, close_connection, close_object, on_resolved,
  on_connected, on_written, on_local_read, lock,
}
use protogate.Wire.{Bytes}
use protogate.Forwarder.Runs.{
  Event, opened, data_came, closed, failed, resolved, connected_to, written, local_read, step, run,
}

module _ (P : TcpConnection → Type 0) where
  pub All-set_object :
      (h : ℕ) (c : TcpConnection) (cs : List TcpConnection)
      → All P cs
      → P c
      → All P (set_object h c cs)
  All-set_object h c [] all holds = tt
  All-set_object zero c (d ∷ cs) (p, all) holds = (holds, all)
  All-set_object (suc h) c (d ∷ cs) (p, all) holds = (p, All-set_object h c cs all holds)

  pub All-object :
      (h : ℕ) (c : TcpConnection) (cs : List TcpConnection) → All P cs → object h cs ≡ some c → P c
  All-object h c [] all there = absurd (ground (arith, there))
  All-object zero c (d ∷ cs) (p, all) there = subst P (ground (arith, there)) p
  All-object (suc h) c (d ∷ cs) (p, all) there = All-object h c cs all there

-- Where the weak pointer locks, the object is there.
pub lock-object :
    (h : ℕ) (f : TcpForwarder) (c : TcpConnection) → lock h f ≡ some c → object h f.objects ≡ some c
lock-object h f c held = elim (Option-cases (object h f.objects)) [
  | inl gone ↦ ground (arith, gone, held)
  | inr (d, there) ↦ ground (arith, there, held)
]

abbrev pub Flushed : TcpConnection → Type 0
Flushed c = c.connected ≡ true → c.pending_data ≡ []

abbrev pub IsFlushed : TcpForwarder → Type 0
IsFlushed f = All Flushed f.objects

IsFlushed-close_object : (h : ℕ) (f : TcpForwarder) → IsFlushed f → IsFlushed (close_object h f)
unfolding close_object
IsFlushed-close_object h f all = elim (Option-cases (object h f.objects)) [
  | inl gone ↦ rw (close_object, gone) all
  | inr (c, there) ↦
      rw (close_object, there)
        (All-set_object Flushed h (record c { is_open = false }) f.objects all
          (All-object Flushed h c f.objects all there))
]

IsFlushed-close_connection :
    (id : Bytes) (f : TcpForwarder) → IsFlushed f → IsFlushed (close_connection id f)
unfolding close_connection
IsFlushed-close_connection id f all = elim (Option-cases (find id f.connections)) [
  | inl gone ↦ rw (close_connection, gone) all
  | inr (h, there) ↦ rw (close_connection, there) (IsFlushed-close_object h f all)
]

IsFlushed-data :
    (id bytes : Bytes) (f : TcpForwarder) → IsFlushed f → IsFlushed (handle_tcp_data id bytes f).1
unfolding handle_tcp_data
IsFlushed-data id bytes f all = elim (Option-cases (find id f.connections)) [
  | inl gone ↦ rw (handle_tcp_data, gone) all
  | inr (h, entry) ↦ elim (Option-cases (object h f.objects)) [
    | inl gone ↦ rw (handle_tcp_data, entry, gone) all
    | inr (c, there) ↦ elim (Bool-cases c.connected) [
      | inl ready ↦ rw (handle_tcp_data, entry, there, ready) all
      | inr early ↦
          rw (handle_tcp_data, entry, there, early)
            (All-set_object Flushed h
              (record c { connected = false; pending_data = c.pending_data ++ (bytes ∷ []) })
              f.objects all (λ ready. absurd (false≢true ready)))
    ]
  ]
]

module _ (host : Host) where
  IsFlushed-connected :
      (h : ℕ) (id : Bytes) (fails : Bool) (f : TcpForwarder)
      → IsFlushed f
      → IsFlushed (on_connected host h id fails f).1
  unfolding on_connected
  IsFlushed-connected h id fails f all = elim (Option-cases (object h f.objects)) [
    | inl gone ↦ rw (on_connected, gone) all
    | inr (c, there) ↦ elim (Bool-cases fails) [
      | inl bad ↦ rw (on_connected, there, bad) all
      | inr good ↦
          rw (on_connected, there, good)
            (All-set_object Flushed h
              (record c { is_open = true; connected = true; pending_data = [] }) f.objects all
              (λ ready. refl))
    ]
  ]

  IsFlushed-read :
      (h : ℕ) (outcome : Option Bytes) (f : TcpForwarder)
      → IsFlushed f
      → IsFlushed (on_local_read host h outcome f).1
  unfolding on_local_read
  IsFlushed-read h none f all = elim (Option-cases (lock h f)) [
    | inl gone ↦ rw (on_local_read, gone) all
    | inr (c, held) ↦ rw (on_local_read, held) (IsFlushed-close_connection c.connection_id f all)
  ]
  IsFlushed-read h (some bytes) f all = elim (Option-cases (lock h f)) [
    | inl gone ↦ rw (on_local_read, gone) all
    | inr (c, held) ↦
        rw (on_local_read, held)
          (All-set_object Flushed h
            (record c { sequence_number = (c.sequence_number + 1) % 2 ^ 32 }) f.objects all
            (All-object Flushed h c f.objects all (lock-object h f c held)))
  ]

  IsFlushed-written :
      (h : ℕ) (id : Bytes) (fails : Bool) (f : TcpForwarder)
      → IsFlushed f
      → IsFlushed (on_written h id fails f).1
  unfolding on_written
  IsFlushed-written h id fails f all = elim (Option-cases (lock h f)) [
    | inl gone ↦ rw (on_written, gone) all
    | inr (c, held) ↦ elim (Bool-cases fails) [
      | inl bad ↦ rw (on_written, held, bad) (IsFlushed-close_connection id f all)
      | inr good ↦ rw (on_written, held, good) all
    ]
  ]

  IsFlushed-resolved :
      (h : ℕ) (id : Bytes) (fails : Bool) (f : TcpForwarder)
      → IsFlushed f
      → IsFlushed (on_resolved host h id fails f).1
  unfolding on_resolved
  IsFlushed-resolved h id true f all = all
  IsFlushed-resolved h id (false) f all = all

  -- Every frame and every completion leaves a connected connection with no data waiting, if it finds the
  -- connections so.
  pub step-IsFlushed : (e : Event) (f : TcpForwarder) → IsFlushed f → IsFlushed (step host e f).1
  unfolding step handle_tcp_open handle_tcp_close handle_tcp_error
  step-IsFlushed (opened id port) f all =
      All-append Flushed f.objects (new_connection id ∷ []) all ((λ ready. refl), tt)
  step-IsFlushed (data_came id bytes) f all = IsFlushed-data id bytes f all
  step-IsFlushed (closed id) f all = IsFlushed-close_connection id f all
  step-IsFlushed (failed id code message) f all = IsFlushed-close_connection id f all
  step-IsFlushed (resolved h id fails) f all = IsFlushed-resolved h id fails f all
  step-IsFlushed (connected_to h id fails) f all = IsFlushed-connected h id fails f all
  step-IsFlushed (written h id fails) f all = IsFlushed-written h id fails f all
  step-IsFlushed (local_read h outcome) f all = IsFlushed-read h outcome f all

  -- No sequence of frames and completions leaves data waiting for a connected connection, if none waits
  -- at the start.
  pub run-IsFlushed :
      (es : List Event) (f : TcpForwarder) → IsFlushed f → IsFlushed (run host es f).1
  unfolding run
  run-IsFlushed [] f all = all
  run-IsFlushed (e ∷ es) f all = run-IsFlushed es (step host e f).1 (step-IsFlushed e f all)
