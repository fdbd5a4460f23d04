-- ===== src/AgentProcess/Reconnect.antt =====
-- tunnel-agent/src/utils/reconnect.h, reconnect.cpp, and the loop of `run_agent` in
-- tunnel-agent/src/main.cpp around it. Delays are ints that are not negative; a product that an int
-- does not hold, which C++ leaves undefined, is `none`.
use protogate.Base.{
  ℕ, ◌*◌, ◌^◌, Bool, true, false, ◌&&◌, List, [], ◌∷◌, Option, none, some, min, ltb, if◌then◌else◌,
}

pub record ReconnectionManager : Type 0 where
  pub initial_delay_ms : ℕ
  pub max_delay_ms : ℕ
  pub current_delay_ms : ℕ
  pub can_reconnect : Bool

unfoldable pub new_manager : ℕ → ℕ → ReconnectionManager
new_manager initial_delay_ms max_delay_ms = record {
  initial_delay_ms = initial_delay_ms;
  max_delay_ms = max_delay_ms;
  current_delay_ms = initial_delay_ms;
  can_reconnect = true;
}

unfoldable pub reset : ReconnectionManager → ReconnectionManager
reset m = record m { current_delay_ms = m.initial_delay_ms; can_reconnect = true }

unfoldable pub get_next_delay_ms : ReconnectionManager → Option (ℕ × ReconnectionManager)
get_next_delay_ms m =
    if ltb (m.current_delay_ms * 2) (2 ^ 31)
    then some (
      m.current_delay_ms,
      record m { current_delay_ms = min (m.current_delay_ms * 2) m.max_delay_ms },
    )
    else none

unfoldable pub should_reconnect : ReconnectionManager → Bool
should_reconnect m = m.can_reconnect

-- One turn of the loop of `run_agent`: whether the session was set up, so that `reset` was called,
-- and whether `running` still holds at its end.
pub record Turn : Type 0 where
  pub connected : Bool
  pub running : Bool

-- The pauses that the loop makes over these turns.
unfoldable pub run_agent : List Turn → ReconnectionManager → Option (List ℕ)
run_agent [] m = some []
run_agent (turn ∷ turns) m =
    let m' : ReconnectionManager = if turn.connected then reset m else m in
    elim (should_reconnect m && (turn.running && should_reconnect m')) [
      | false ↦ some []
      | true ↦ elim (get_next_delay_ms m') [
        | none ↦ none
        | some (delay, next) ↦ elim (run_agent turns next) [
          | none ↦ none
          | some delays ↦ some (delay ∷ delays)
        ]
      ]
    ]
