-- ===== src/AgentRegistry/Shutdown.antt =====
-- When `shutdown` returns.
use protogate.AgentConnection.{
  AgentConnection, Outcome, on_disconnect, is_closed_state, close, handle_disconnect, fail_all,
}
use protogate.AgentRegistry.{AgentRegistry, calls_back, close_all, shutdown}
use protogate.Base.{
  ℕ, ◌≡◌, ◌↔◌, refl, true, false, not, ◌&&◌, Bool-cases, List, [], ◌∷◌, ◌++◌, arith, none,
  Option-cases, inl, inr, Any, Map, Text, if◌then◌else◌,
}

-- The connection is not closed, and has the callback of the server.
abbrev pub IsCalling : Text × AgentConnection → Type 0
IsCalling (id, agent) = (is_closed_state agent.state ≡ false) × (agent.has_on_disconnect ≡ true)

calls_back-fail_all :
    (pending : Map ℕ) (out : List Outcome) → calls_back (fail_all pending ++ out) ≡ calls_back out
unfolding calls_back fail_all
calls_back-fail_all [] out = refl
calls_back-fail_all ((id, callback) ∷ pending) out = calls_back-fail_all pending out

calls_back-close :
    (agent : AgentConnection)
    → calls_back (close agent).0 ≡ not (is_closed_state agent.state) && agent.has_on_disconnect
unfolding close handle_disconnect calls_back
calls_back-close agent = ground (
  arith,
  calls_back-fail_all agent.pending_requests
      (if agent.has_on_disconnect then on_disconnect agent.tunnel_id ∷ [] else []),
)

-- A closed connection calls nobody back.
calls-both :
    (agent : AgentConnection)
    → calls_back (close agent).0 ≡ true
    → (is_closed_state agent.state ≡ false) × (agent.has_on_disconnect ≡ true)
calls-both agent calls =
    (ground (arith, calls, calls_back-close agent), ground (arith, calls, calls_back-close agent))

close_all-stuck : (agents : Map AgentConnection) → (close_all agents ≡ none) ↔ Any IsCalling agents
unfolding close_all
close_all-stuck [] = (λ h. absurd (ground (arith, h)), λ h. absurd h)
close_all-stuck ((id, agent) ∷ agents) = elim (Bool-cases (calls_back (close agent).0)) [
  | inl calls ↦ (λ h. inl (calls-both agent calls), λ h. ground (arith, calls))
  | inr quiet ↦ (
    λ h. inr ((close_all-stuck agents).0 (ground (arith, h, quiet))),
    λ h. elim h [
      | inl this ↦ absurd (ground (arith, quiet, calls_back-close agent, this))
      | inr later ↦ ground (arith, quiet, (close_all-stuck agents).1 later)
    ],
  )
]

-- `shutdown` waits for itself for ever exactly if some registered agent's connection is not closed and
-- has the callback that unregisters it.
pub shutdown-none_iff : (r : AgentRegistry) → (shutdown r ≡ none) ↔ Any IsCalling r.agents
unfolding shutdown
shutdown-none_iff r = elim (Option-cases (close_all r.agents)) [
  | inl stuck ↦ (λ h. (close_all-stuck r.agents).0 stuck, λ h. ground (arith, stuck))
  | inr (out, ends) ↦ (
    λ h. absurd (ground (arith, h, ends)),
    λ h. ground (arith, ends, (close_all-stuck r.agents).1 h),
  )
]
