-- ===== src/Forwarder/Buffers.antt =====
-- The memory of the buffers that the forwarder gives to `async_write`.
use protogate.Base.{
  ℕ, ◌+◌, ◌%◌, ◌^◌, suc, Bool, true, ◌&&◌, List, [], ◌∷◌, ◌++◌, ◌≡◌, refl, ◌∙◌, arith, Option, none,
  some, Option-cases, inl, inr,
}
use protogate.Forwarder.{
  Host, TcpForwarder, Action, resolve, connect, write, read, send, object, update, handle_tcp_open,
  handle_tcp_data, handle_tcp_close, handle_tcp_error, close_connection, on_resolved, on_connected,
  on_written, on_local_read, start_local_read, flush, flush_from, send_tcp_data_frame,
  send_tcp_close_frame, lock,
}
use protogate.Forwarder.Flushed.{IsFlushed}
use protogate.Forwarder.Writes.{run-accepted_by, waiting-set_object}
use protogate.Forwarder.Runs.{
  Event, opened, data_came, closed, failed, resolved, connected_to, written, local_read, step, run,
  buffers_to, waiting, are_gone, are_gone_each, accepted_by,
}
use protogate.Wire.{Bytes}

are_gone-append :
    (xs ys : List Action) (f : TcpForwarder)
    → are_gone (xs ++ ys) f ≡ (are_gone xs f && are_gone ys f)
unfolding are_gone
are_gone-append [] ys f = refl
are_gone-append (write g memory bytes ∷ xs) ys f = ground (arith, are_gone-append xs ys f)
are_gone-append (resolve g id port ∷ xs) ys f = are_gone-append xs ys f
are_gone-append (connect g id ∷ xs) ys f = are_gone-append xs ys f
are_gone-append (read g ∷ xs) ys f = are_gone-append xs ys f
are_gone-append (send frame ∷ xs) ys f = are_gone-append xs ys f

-- `clear` takes the memory of what is flushed.
are_gone-flush_from :
    (h i : ℕ) (bs : List Bytes) (f : TcpForwarder)
    → waiting h f ≡ []
    → are_gone (flush_from h i bs) f ≡ true
unfolding are_gone flush_from
are_gone-flush_from h i [] f cleared = refl
are_gone-flush_from h i (b ∷ bs) f cleared =
    ground (arith, cleared, are_gone-flush_from h (suc i) bs f cleared)

read_only : (h : ℕ) (f g : TcpForwarder) → are_gone (start_local_read h f) g ≡ true
unfolding are_gone start_local_read
read_only h f g = ground arith

module _ (host : Host) where
  close_only :
      (id : Bytes) (reason : ℕ) (f g : TcpForwarder)
      → are_gone (send_tcp_close_frame host id reason f) g ≡ true
  unfolding are_gone send_tcp_close_frame
  close_only id reason f g = ground arith

  data_only :
      (id bytes : Bytes) (n : ℕ) (f g : TcpForwarder)
      → are_gone (send_tcp_data_frame host id bytes n f) g ≡ true
  unfolding are_gone send_tcp_data_frame
  data_only id bytes n f g = ground arith

  are_gone-on_connected :
      (g : ℕ) (id : Bytes) (fails : Bool) (f : TcpForwarder)
      → are_gone (on_connected host g id fails f).0 (on_connected host g id fails f).1 ≡ true
  unfolding on_connected flush are_gone
  are_gone-on_connected g id fails f = elim (Option-cases (object g f.objects)) [
    | inl gone ↦ ground (arith, gone)
    | inr (c, there) ↦
        let c' = record c { is_open = true; connected = true; pending_data = [] } in
        let f' = update g c' f in
        ground (
          arith,
          there,
          close_only id 1 f f,
          are_gone-append (flush_from g 0 c.pending_data) (start_local_read g f') f',
          are_gone-flush_from g 0 c.pending_data f'
              (waiting-set_object g g c' c f.objects there ∙ ground arith),
          read_only g f' f',
        )
  ]

  are_gone-on_local_read :
      (g : ℕ) (outcome : Option Bytes) (f : TcpForwarder)
      → are_gone (on_local_read host g outcome f).0 (on_local_read host g outcome f).1 ≡ true
  unfolding on_local_read are_gone
  are_gone-on_local_read g none f = elim (Option-cases (lock g f)) [
    | inl gone ↦ ground (arith, gone)
    | inr (c, held) ↦
        ground (arith, held, close_only c.connection_id 0 f (close_connection c.connection_id f))
  ]
  are_gone-on_local_read g (some bytes) f = elim (Option-cases (lock g f)) [
    | inl gone ↦ ground (arith, gone)
    | inr (c, held) ↦
        let f' = update g (record c { sequence_number = (c.sequence_number + 1) % 2 ^ 32 }) f in
        ground (
          arith,
          held,
          are_gone-append (send_tcp_data_frame host c.connection_id bytes c.sequence_number f)
              (start_local_read g f) f',
          data_only c.connection_id bytes c.sequence_number f f',
          read_only g f f',
        )
  ]

  are_gone-step :
      (e : Event) (f : TcpForwarder) → are_gone (step host e f).0 (step host e f).1 ≡ true
  unfolding step are_gone handle_tcp_open handle_tcp_data handle_tcp_close handle_tcp_error
      on_resolved on_written
  are_gone-step (opened id port) f = refl
  are_gone-step (data_came id bytes) f = ground arith
  are_gone-step (closed id) f = refl
  are_gone-step (failed id code message) f = refl
  are_gone-step (resolved g id fails) f = ground (arith, close_only id 1 f f)
  are_gone-step (connected_to g id fails) f = are_gone-on_connected g id fails f
  are_gone-step (written g id fails) f = ground arith
  are_gone-step (local_read g outcome) f = are_gone-on_local_read g outcome f

  are_gone_each-run : (es : List Event) (f : TcpForwarder) → are_gone_each host es f ≡ true
  unfolding are_gone_each
  are_gone_each-run [] f = refl
  are_gone_each-run (e ∷ es) f =
      ground (arith, are_gone-step e f, are_gone_each-run es (step host e f).1)

  -- Over any sequence of frames and completions that starts with no data waiting for a connected
  -- connection, the buffers that `async_write` is given for a connection's socket have, when it is
  -- called, and followed by the data that waits for it, the data that waited at the start, followed by
  -- the data that came for it, in this order. But none of these buffers is there any more when the
  -- handler that gave it returns, while `async_write` needs it until the write is complete.
  pub run-buffers_to :
      (h : ℕ) (es : List Event) (f : TcpForwarder)
      → IsFlushed f
      → (buffers_to h (run host es f).0 ++ waiting h (run host es f).1
          ≡ waiting h f ++ accepted_by host h es f)
        × (are_gone_each host es f ≡ true)
  run-buffers_to h es f all = (run-accepted_by host h es f all, are_gone_each-run es f)
