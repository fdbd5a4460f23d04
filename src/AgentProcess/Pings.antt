-- ===== src/AgentProcess/Pings.antt =====
-- Which checks of the agent's timer send a PING.
use protogate.AgentProcess.Heartbeat.{
  start_heartbeat, elapsed_ms, should_send_ping, record_ping_ack, Process, Deed, pinged,
  disconnected, processed, heartbeat_check,
}
use protogate.Base.{
  ℕ, ◌+◌, ◌≡◌, refl, Bool, true, List, [], ◌∷◌, arith, leb, if◌then◌else◌, All, length, ◌==◌,
}

-- A check of the timer, with what nghttp2 and the timer return, or the acknowledgement of a PING.
pub data Tick : Type 0 where
  check_at : ℕ → Bool → Bool → Tick
  ack_at : ℕ → Tick

-- The checks' times and deeds.
unfoldable pub run : List Tick → Process → List (ℕ × List Deed)
run [] p = []
run (check_at now sent cancelled ∷ ticks) p =
    let (next, deeds) = heartbeat_check now sent cancelled p in (now, deeds) ∷ run ticks next
run (ack_at now ∷ ticks) p = run ticks (record p { heartbeat = record_ping_ack now p.heartbeat })

unfoldable pub pings : List Deed → ℕ
pings [] = 0
pings (pinged ∷ deeds) = 1 + pings deeds
pings (disconnected ∷ deeds) = pings deeds
pings (processed ∷ deeds) = pings deeds

-- A check that does anything sends a PING if the interval has passed since this time.
abbrev pub PingsSince : ℕ → ℕ → ℕ × List Deed → Type 0
PingsSince interval_ms since (now, deeds) =
    pings deeds
    ≡ (if length deeds == 0 then 0 else if leb interval_ms (elapsed_ms now since) then 1 else 0)

check-PingsSince :
    (now : ℕ) (sent cancelled : Bool) (p : Process)
    → p.heartbeat.started ≡ true
    → PingsSince p.heartbeat.interval_ms p.heartbeat.last_ping_time
        (now, (heartbeat_check now sent cancelled p).1)
unfolding heartbeat_check should_send_ping pings
check-PingsSince now sent cancelled p on = ground (arith, on)

check-heartbeat :
    (now : ℕ) (sent cancelled : Bool) (p : Process)
    → (heartbeat_check now sent cancelled p).0.heartbeat ≡ p.heartbeat
unfolding heartbeat_check
check-heartbeat now sent cancelled p = ground arith

run-PingsSince :
    (interval_ms since : ℕ) (ticks : List Tick) (p : Process)
    → p.heartbeat.started ≡ true
    → p.heartbeat.interval_ms ≡ interval_ms
    → p.heartbeat.last_ping_time ≡ since
    → All (PingsSince interval_ms since) (run ticks p)
unfolding run record_ping_ack
run-PingsSince interval_ms since [] p on i l = tt
run-PingsSince interval_ms since (check_at now sent cancelled ∷ ticks) p on i l =
    let next = (heartbeat_check now sent cancelled p).0 in
    let same = check-heartbeat now sent cancelled p in
    (
      rw (← i, ← l) (check-PingsSince now sent cancelled p on),
      run-PingsSince interval_ms since ticks next (rw same on) (rw same i) (rw same l),
    )
run-PingsSince interval_ms since (ack_at now ∷ ticks) p on i l =
    run-PingsSince interval_ms since ticks
      (record p { heartbeat = record_ping_ack now p.heartbeat }) on i l

-- Once the heartbeat is started, over any sequence of checks and acknowledgements, a check that does
-- anything sends one PING if the interval has passed since the start, however many were sent in
-- between, and none before that.
pub run-start_heartbeat :
    (start : ℕ) (ticks : List Tick) (p : Process)
    → All
        (PingsSince p.heartbeat.interval_ms start)
        (run ticks (record p { heartbeat = start_heartbeat start p.heartbeat }))
unfolding start_heartbeat
run-start_heartbeat start ticks p =
    run-PingsSince p.heartbeat.interval_ms start ticks
      (record p { heartbeat = start_heartbeat start p.heartbeat }) refl refl refl
