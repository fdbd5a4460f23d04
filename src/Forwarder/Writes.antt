-- ===== src/Forwarder/Writes.antt =====
-- What the forwarder writes to a local socket over any sequence of frames and completions, against
-- the data that it takes for that connection.
use protogate.Base.{
  ℕ, ◌+◌, ◌%◌, ◌^◌, zero, suc, Bool, true, false, List, [], ◌∷◌, ◌++◌, ◌==◌, ◌≡◌, refl, sym, arith,
  Option, none, some, if◌then◌else◌, find, append_assoc, append-nil, Option-cases, inl, inr,
}
use protogate.Forwarder.{
  Host, TcpConnection, TcpForwarder, Action, resolve, connect, write, read, send, object,
  set_object, update, new_connection, handle_tcp_open, handle_tcp_data, handle_tcp_close,
  handle_tcp_error, close_connection, close_object, on_resolved, on_connected, on_written,
  on_local_read, start_local_read, flush, flush_from, send_tcp_data_frame, send_tcp_close_frame,
  lock,
}
use protogate.Forwarder.Flushed.{IsFlushed, Flushed, All-object, lock-object, step-IsFlushed}
use protogate.Wire.{Bytes}
use protogate.Forwarder.Runs.{
  Event, opened, data_came, closed, failed, resolved, connected_to, written, local_read, step, run,
  buffers_to, waiting_in, waiting, accepted, accepted_by,
}

buffers_to-append :
    (h : ℕ) (xs ys : List Action) → buffers_to h (xs ++ ys) ≡ buffers_to h xs ++ buffers_to h ys
unfolding buffers_to
buffers_to-append h [] ys = refl
buffers_to-append h (write g memory bytes ∷ xs) ys = ground (arith, buffers_to-append h xs ys)
buffers_to-append h (resolve g id port ∷ xs) ys = buffers_to-append h xs ys
buffers_to-append h (connect g id ∷ xs) ys = buffers_to-append h xs ys
buffers_to-append h (read g ∷ xs) ys = buffers_to-append h xs ys
buffers_to-append h (send frame ∷ xs) ys = buffers_to-append h xs ys

buffers_to-flush_from :
    (h g i : ℕ) (bs : List Bytes) → buffers_to h (flush_from g i bs) ≡ (if g == h then bs else [])
unfolding buffers_to flush_from
buffers_to-flush_from h g i [] = ground arith
buffers_to-flush_from h g i (b ∷ bs) = ground (arith, buffers_to-flush_from h g (suc i) bs)

-- An object put back with other data waiting.
pub waiting-set_object :
    (h g : ℕ) (c d : TcpConnection) (cs : List TcpConnection)
    → object g cs ≡ some d
    → waiting_in h (set_object g c cs) ≡ (if g == h then c.pending_data else waiting_in h cs)
waiting-set_object h g c d [] there = ground arith
waiting-set_object zero zero c d (e ∷ cs) there = refl
waiting-set_object (suc h) zero c d (e ∷ cs) there = ground arith
waiting-set_object zero (suc g) c d (e ∷ cs) there = ground arith
waiting-set_object (suc h) (suc g) c d (e ∷ cs) there =
    ground (arith, waiting-set_object h g c d cs there)

waiting-object :
    (h : ℕ) (d : TcpConnection) (cs : List TcpConnection)
    → object h cs ≡ some d
    → waiting_in h cs ≡ d.pending_data
waiting-object h d [] there = ground arith
waiting-object zero d (e ∷ cs) there = ground arith
waiting-object (suc h) d (e ∷ cs) there = waiting-object h d cs there

waiting-new :
    (h : ℕ) (id : Bytes) (cs : List TcpConnection)
    → waiting_in h (cs ++ (new_connection id ∷ [])) ≡ waiting_in h cs
waiting-new zero id [] = refl
waiting-new (suc h) id [] = refl
waiting-new zero id (c ∷ cs) = refl
waiting-new (suc h) id (c ∷ cs) = waiting-new h id cs

waiting-close_object : (h g : ℕ) (f : TcpForwarder) → waiting h (close_object g f) ≡ waiting h f
unfolding close_object
waiting-close_object h g f = elim (Option-cases (object g f.objects)) [
  | inl gone ↦ ground (arith, gone)
  | inr (c, there) ↦ ground (
    arith,
    there,
    waiting-set_object h g (record c { is_open = false }) c f.objects there,
    waiting-object h c f.objects,
  )
]

waiting-close_connection :
    (h : ℕ) (id : Bytes) (f : TcpForwarder) → waiting h (close_connection id f) ≡ waiting h f
unfolding close_connection
waiting-close_connection h id f = elim (Option-cases (find id f.connections)) [
  | inl gone ↦ ground (arith, gone)
  | inr (g, there) ↦ ground (arith, there, waiting-close_object h g f)
]

-- None of these writes to a socket.
silent_read : (h g : ℕ) (f : TcpForwarder) → buffers_to h (start_local_read g f) ≡ []
unfolding buffers_to start_local_read
silent_read h g f = ground arith

silent_data :
    (host : Host) (h : ℕ) (id bytes : Bytes) (n : ℕ) (f : TcpForwarder)
    → buffers_to h (send_tcp_data_frame host id bytes n f) ≡ []
unfolding buffers_to send_tcp_data_frame
silent_data host h id bytes n f = ground arith

silent_close :
    (host : Host) (h : ℕ) (id : Bytes) (reason : ℕ) (f : TcpForwarder)
    → buffers_to h (send_tcp_close_frame host id reason f) ≡ []
unfolding buffers_to send_tcp_close_frame
silent_close host h id reason f = ground arith

-- What a call writes to the socket and leaves waiting is what waited, and then some data.
abbrev Keeps : ℕ → List Action × TcpForwarder → TcpForwarder → List Bytes → Type 0
Keeps h after f taken = buffers_to h after.0 ++ waiting h after.1 ≡ waiting h f ++ taken

module _ (host : Host) (h : ℕ) where
  open-Keeps : (id : Bytes) (port : ℕ) (f : TcpForwarder) → Keeps h (handle_tcp_open id port f) f []
  unfolding handle_tcp_open buffers_to
  open-Keeps id port f = rw append-nil (waiting-new h id f.objects)

  close-Keeps : (id : Bytes) (f : TcpForwarder) → Keeps h ([], close_connection id f) f []
  unfolding buffers_to
  close-Keeps id f = rw append-nil (waiting-close_connection h id f)

  data-Keeps :
      (id bytes : Bytes) (f : TcpForwarder)
      → IsFlushed f
      → Keeps h (handle_tcp_data id bytes f) f (accepted h (data_came id bytes) f)
  unfolding handle_tcp_data buffers_to accepted
  data-Keeps id bytes f all = elim (Option-cases (find id f.connections)) [
    | inl gone ↦ ground (arith, gone, append-nil (waiting h f))
    | inr (g, entry) ↦ elim (Option-cases (object g f.objects)) [
      | inl gone ↦ ground (arith, entry, gone, append-nil (waiting h f))
      | inr (c, there) ↦ ground (
        arith,
        entry,
        there,
        append-nil (waiting h f),
        waiting-object g c f.objects there,
        All-object Flushed g c f.objects all there,
        waiting-set_object h g (record c { pending_data = c.pending_data ++ (bytes ∷ []) }) c
            f.objects there,
      )
    ]
  ]

  resolved-Keeps :
      (g : ℕ) (id : Bytes) (fails : Bool) (f : TcpForwarder)
      → Keeps h (on_resolved host g id fails f) f []
  unfolding on_resolved buffers_to
  resolved-Keeps g id true f = rw (silent_close host h id 1 f, append-nil) refl
  resolved-Keeps g id (false) f = rw append-nil refl

  connected-Keeps :
      (g : ℕ) (id : Bytes) (fails : Bool) (f : TcpForwarder)
      → Keeps h (on_connected host g id fails f) f []
  unfolding on_connected flush buffers_to
  connected-Keeps g id fails f = elim (Option-cases (object g f.objects)) [
    | inl gone ↦ ground (arith, gone, append-nil (waiting h f))
    | inr (c, there) ↦
        let c' = record c { is_open = true; connected = true; pending_data = [] } in
        ground (
          arith,
          there,
          append-nil (waiting h f),
          append-nil c.pending_data,
          silent_close host h id 1 f,
          buffers_to-append h (flush_from g 0 c.pending_data) (start_local_read g (update g c' f)),
          buffers_to-flush_from h g 0 c.pending_data,
          silent_read h g (update g c' f),
          waiting-object g c f.objects there,
          waiting-set_object h g c' c f.objects there,
        )
  ]

  written-Keeps :
      (g : ℕ) (id : Bytes) (fails : Bool) (f : TcpForwarder)
      → Keeps h (on_written g id fails f) f []
  unfolding on_written buffers_to
  written-Keeps g id fails f = elim (Option-cases (lock g f)) [
    | inl gone ↦ ground (arith, gone, append-nil (waiting h f))
    | inr (c, held) ↦
        ground (arith, held, append-nil (waiting h f), waiting-close_connection h id f)
  ]

  read-Keeps :
      (g : ℕ) (outcome : Option Bytes) (f : TcpForwarder)
      → Keeps h (on_local_read host g outcome f) f []
  unfolding on_local_read buffers_to
  read-Keeps g none f = elim (Option-cases (lock g f)) [
    | inl gone ↦ ground (arith, gone, append-nil (waiting h f))
    | inr (c, held) ↦ ground (
      arith,
      held,
      append-nil (waiting h f),
      silent_close host h c.connection_id 0 f,
      waiting-close_connection h c.connection_id f,
    )
  ]
  read-Keeps g (some bytes) f = elim (Option-cases (lock g f)) [
    | inl gone ↦ ground (arith, gone, append-nil (waiting h f))
    | inr (c, held) ↦
        let there = lock-object g f c held in
        let frames = send_tcp_data_frame host c.connection_id bytes c.sequence_number f in
        ground (
          arith,
          held,
          append-nil (waiting h f),
          buffers_to-append h frames (start_local_read g f),
          silent_data host h c.connection_id bytes c.sequence_number f,
          silent_read h g f,
          waiting-object g c f.objects there,
          waiting-set_object h g (record c { sequence_number = (c.sequence_number + 1) % 2 ^ 32 }) c
              f.objects there,
        )
  ]

  step-Keeps :
      (e : Event) (f : TcpForwarder) → IsFlushed f → Keeps h (step host e f) f (accepted h e f)
  unfolding step accepted handle_tcp_close handle_tcp_error
  step-Keeps (opened id port) f all = open-Keeps id port f
  step-Keeps (data_came id bytes) f all = data-Keeps id bytes f all
  step-Keeps (closed id) f all = close-Keeps id f
  step-Keeps (failed id code message) f all = close-Keeps id f
  step-Keeps (resolved g id fails) f all = resolved-Keeps g id fails f
  step-Keeps (connected_to g id fails) f all = connected-Keeps g id fails f
  step-Keeps (written g id fails) f all = written-Keeps g id fails f
  step-Keeps (local_read g outcome) f all = read-Keeps g outcome f

  -- The buffers of a run.
  pub run-accepted_by :
      (es : List Event) (f : TcpForwarder)
      → IsFlushed f
      → buffers_to h (run host es f).0 ++ waiting h (run host es f).1
        ≡ waiting h f ++ accepted_by host h es f
  unfolding run accepted_by buffers_to
  run-accepted_by [] f all = sym (append-nil (waiting h f))
  run-accepted_by (e ∷ es) f all =
      let after = step host e f in
      let rest = run-accepted_by es after.1 (step-IsFlushed host e f all) in
      rw
        (
          buffers_to-append h after.0 (run host es after.1).0,
          append_assoc,
          rest,
          ← append_assoc,
          step-Keeps e f all,
          append_assoc,
        )
        refl
