-- ===== src/AgentProcess/Heartbeat.antt =====
-- tunnel-agent/src/health/heartbeat.h, heartbeat.cpp, and the check that the timer of `run_agent` in
-- tunnel-agent/src/main.cpp makes every 100 ms. Times are ticks of the steady clock, nanoseconds, and
-- do not fall; intervals are not negative.
use protogate.Agent.Session.{Session, send_ping, process_events, stop}
use protogate.Base.{ℕ, ◌-◌, ◌/◌, Bool, true, false, not, ◌||◌, List, [], ◌∷◌, leb, if◌then◌else◌}

pub record HeartbeatManager : Type 0 where
  pub interval_ms : ℕ
  pub timeout_ms : ℕ
  pub last_ping_time : ℕ
  pub last_ack_time : ℕ
  pub started : Bool

unfoldable pub new_heartbeat : ℕ → ℕ → HeartbeatManager
new_heartbeat interval_ms timeout_ms = record {
  interval_ms = interval_ms;
  timeout_ms = timeout_ms;
  last_ping_time = 0;
  last_ack_time = 0;
  started = false;
}

unfoldable pub start_heartbeat : ℕ → HeartbeatManager → HeartbeatManager
start_heartbeat now h = record h { last_ping_time = now; last_ack_time = now; started = true }

unfoldable pub stop_heartbeat : HeartbeatManager → HeartbeatManager
stop_heartbeat h = record h { started = false }

-- `duration_cast<milliseconds>(now - since).count()`
abbrev pub elapsed_ms : ℕ → ℕ → ℕ
elapsed_ms now since = (now - since) / 1000000

unfoldable pub should_send_ping : ℕ → HeartbeatManager → Bool
should_send_ping now h =
    if not h.started then false else leb h.interval_ms (elapsed_ms now h.last_ping_time)

unfoldable pub is_timed_out : ℕ → HeartbeatManager → Bool
is_timed_out now h =
    if not h.started then false else leb h.timeout_ms (elapsed_ms now h.last_ack_time)

unfoldable pub record_ping_ack : ℕ → HeartbeatManager → HeartbeatManager
record_ping_ack now h = record h { last_ack_time = now }

-- What the process keeps between the checks, and whether the timer is set again.
pub record Process : Type 0 where
  pub running : Bool
  pub session : Session
  pub heartbeat : HeartbeatManager
  pub scheduled : Bool

-- What one check does.
pub data Deed : Type 0 where
  pinged disconnected processed : Deed

-- The ping, if it is due.
unfoldable pub ping_if_due : ℕ → Bool → Process → Process
ping_if_due now sent p =
    if should_send_ping now p.heartbeat then record p { session = send_ping sent p.session } else p

-- `heartbeat_check`; `sent` says whether nghttp2's sending succeeds.
unfoldable pub heartbeat_check : ℕ → (sent cancelled : Bool) → Process → Process × List Deed
heartbeat_check now sent cancelled p =
    let due = should_send_ping now p.heartbeat in
    let pinged_process = ping_if_due now sent p in
    if cancelled || not p.running || not p.session.active
    then (record p { scheduled = false }, [])
    else if is_timed_out now p.heartbeat
    then (
      record p { running = false; session = stop pinged_process.session; scheduled = false },
      if due then pinged ∷ disconnected ∷ [] else disconnected ∷ [],
    )
    else (
      record p { session = process_events sent pinged_process.session; scheduled = true },
      if due then pinged ∷ processed ∷ [] else processed ∷ [],
    )
