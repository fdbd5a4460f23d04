-- ===== src/AgentProcess/Backoff.antt =====
-- The pauses between the agent's connections in closed form.
use native.Mathlib.Nat.{pow-suc}
use protogate.AgentProcess.Reconnect.{
  ReconnectionManager, new_manager, reset, get_next_delay_ms, should_reconnect, Turn, run_agent,
}
use protogate.Base.{
  ℕ, suc, ◌*◌, ◌^◌, ◌≤◌, ◌<◌, ◌≡◌, refl, sym, ap, ◌∙◌, Bool, true, false, arith, List, [], ◌∷◌,
  some, min, if◌then◌else◌,
}

-- The pause behind this many turns in a row without a connection.
unfoldable pub backoff : ℕ → ℕ → ℕ → ℕ
backoff initial limit failures = min (initial * 2 ^ failures) limit

pub expected : ℕ → ℕ → ℕ → List Turn → List ℕ
expected initial limit failures [] = []
expected initial limit failures (turn ∷ turns) =
    let since : ℕ = if turn.connected then 0 else failures in
    let rest : List ℕ = expected initial limit (suc since) turns in
    if turn.running then backoff initial limit since ∷ rest else []

double : (initial k : ℕ) → initial * 2 ^ suc k ≡ (initial * 2 ^ k) * 2
double initial k = rw (pow-suc 2 k) (grind arith)

backoff-suc :
    (initial limit k : ℕ) → min (backoff initial limit k * 2) limit ≡ backoff initial limit (suc k)
unfolding backoff
backoff-suc initial limit k = rw (double initial k) (omega arith)

backoff-zero : (initial limit : ℕ) → initial ≤ limit → backoff initial limit 0 ≡ initial
unfolding backoff
backoff-zero initial limit h = omega arith

backoff-le : (initial limit k : ℕ) → backoff initial limit k ≤ limit
unfolding backoff
backoff-le initial limit k = omega arith

-- The manager behind this many turns without a connection.
abbrev waiting : ℕ → ℕ → ℕ → ReconnectionManager
waiting initial limit failures = record (new_manager initial limit) {
  current_delay_ms = backoff initial limit failures;
}

get_next_delay_ms-waiting :
    (initial limit k : ℕ)
    → limit * 2 < 2 ^ 31
    → get_next_delay_ms (waiting initial limit k)
      ≡ some (backoff initial limit k, waiting initial limit (suc k))
unfolding get_next_delay_ms new_manager
get_next_delay_ms-waiting initial limit k small =
    ground (arith, backoff-suc initial limit k, backoff-le initial limit k)

reset-waiting :
    (initial limit k : ℕ)
    → initial ≤ limit
    → reset (waiting initial limit k) ≡ waiting initial limit 0
unfolding reset new_manager
reset-waiting initial limit k h =
    ap (λ current. record (new_manager initial limit) { current_delay_ms = current })
      (sym (backoff-zero initial limit h))

-- A turn that goes on, with the manager that it leaves to the pause.
run_agent-pause :
    (initial limit k : ℕ) (turns : List Turn)
    → limit * 2 < 2 ^ 31
    → run_agent turns (waiting initial limit (suc k)) ≡ some (expected initial limit (suc k) turns)
    → run_agent (record { connected = false; running = true } ∷ turns) (waiting initial limit k)
      ≡ some (backoff initial limit k ∷ expected initial limit (suc k) turns)
unfolding run_agent should_reconnect new_manager
run_agent-pause initial limit k turns small later =
    ground (arith, get_next_delay_ms-waiting initial limit k small, later)

run_agent-reset :
    (m : ReconnectionManager) (turns : List Turn)
    → m.can_reconnect ≡ true
    → run_agent (record { connected = true; running = true } ∷ turns) m
      ≡ run_agent (record { connected = false; running = true } ∷ turns) (reset m)
unfolding run_agent should_reconnect reset
run_agent-reset m turns can = rw can refl

run_agent-turn :
    (initial limit k : ℕ) (connected running : Bool) (turns : List Turn)
    → initial ≤ limit
    → limit * 2 < 2 ^ 31
    → ((j : ℕ) → run_agent turns (waiting initial limit j) ≡ some (expected initial limit j turns))
    → run_agent
        (record { connected = connected; running = running } ∷ turns)
        (waiting initial limit k)
      ≡ some
          (expected initial limit k (record { connected = connected; running = running } ∷ turns))
unfolding expected
run_agent-turn initial limit k connected false turns h small later =
    unfold run_agent should_reconnect new_manager in refl
run_agent-turn initial limit k (false) true turns h small later =
    run_agent-pause initial limit k turns small (later (suc k))
run_agent-turn initial limit k true true turns h small later =
    run_agent-reset (waiting initial limit k) turns (unfold new_manager in refl)
    ∙ ap (run_agent _) (reset-waiting initial limit k h)
    ∙ run_agent-pause initial limit 0 turns small (later 1)

run_agent-waiting :
    (initial limit k : ℕ) (turns : List Turn)
    → initial ≤ limit
    → limit * 2 < 2 ^ 31
    → run_agent turns (waiting initial limit k) ≡ some (expected initial limit k turns)
unfolding run_agent expected should_reconnect new_manager
run_agent-waiting initial limit k [] h small = refl
run_agent-waiting initial limit k (turn ∷ turns) h small =
    let later = λ (j : ℕ). run_agent-waiting initial limit j turns h small in
    run_agent-turn initial limit k turn.connected turn.running turns h small later

-- If the first delay is at most the limit and twice the limit fits an int, the pauses of the agent's
-- loop are these, without an overflow: one behind each turn, until a turn ends with `running` cleared,
-- of the first delay times 2 to the power of the number of turns since the last one that set up a
-- session, or since the first turn where there is none, and at most the limit.
pub run_agent-expected :
    (initial limit : ℕ) (turns : List Turn)
    → initial ≤ limit
    → limit * 2 < 2 ^ 31
    → run_agent turns (new_manager initial limit) ≡ some (expected initial limit 0 turns)
unfolding new_manager
run_agent-expected initial limit turns h small =
    ap
      (λ current.
        run_agent turns (record (new_manager initial limit) { current_delay_ms = current }))
      (sym (backoff-zero initial limit h))
    ∙ run_agent-waiting initial limit 0 turns h small
