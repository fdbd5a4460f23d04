-- ===== src/AgentRegistry.antt =====
-- src/agent/agent_registry.h and .cpp: the agents that are connected, by their tunnels. A shared
-- pointer is the connection that it points to; the mutex counts only in `shutdown`, which holds it
-- while it closes the connections.
pub mod Laws
pub mod Shutdown
pub mod Examples
use protogate.AgentConnection.{
  AgentConnection, Outcome, answer, on_disconnect, tcp_frame, submit_headers, submit_data,
  submit_end, submit_ping, handshake, read, write, set_timer, close, is_connected_state,
}
use protogate.Base.{
  ℕ, ◌+◌, Bool, true, false, ◌||◌, List, [], ◌∷◌, ◌++◌, Option, none, some, length, leb, ◌==◌,
  if◌then◌else◌, map, Text, Map, find, insert, erase, count_of,
}

pub record AgentRegistry : Type 0 where
  pub max_agents : ℕ
  pub agents : Map AgentConnection

unfoldable pub new_registry : ℕ → AgentRegistry
new_registry max = record { max_agents = max; agents = [] }

unfoldable pub register_agent : Text → AgentConnection → AgentRegistry → Bool × AgentRegistry
register_agent tunnel_id agent r =
    if leb r.max_agents (length r.agents)
    then (false, r)
    else if count_of tunnel_id r.agents == 1
    then (false, r)
    else (true, record r { agents = insert tunnel_id agent r.agents })

unfoldable pub unregister_agent : Text → AgentRegistry → AgentRegistry
unregister_agent tunnel_id r = elim (find tunnel_id r.agents) [
  | none ↦ r
  | some agent ↦ record r { agents = erase tunnel_id r.agents }
]

unfoldable pub get_agent : Text → AgentRegistry → Option AgentConnection
get_agent tunnel_id r = elim (find tunnel_id r.agents) [ none ↦ none | some agent ↦ some agent ]

unfoldable pub is_connected : Text → AgentRegistry → Bool
is_connected tunnel_id r = elim (get_agent tunnel_id r) [
  | none ↦ false
  | some agent ↦ is_connected_state agent.state
]

unfoldable pub count : AgentRegistry → ℕ
count r = length r.agents

unfoldable pub is_full : AgentRegistry → Bool
is_full r = leb r.max_agents (length r.agents)

unfoldable pub get_tunnel_ids : AgentRegistry → List Text
get_tunnel_ids r = map (λ entry. entry.0) r.agents

-- Whether `on_disconnect_` is called, which src/server/agent_server.cpp sets to
-- `unregister_agent`.
unfoldable pub calls_back : List Outcome → Bool
calls_back [] = false
calls_back (on_disconnect id ∷ out) = true
calls_back (answer callback response error ∷ out) = calls_back out
calls_back (tcp_frame bytes ∷ out) = calls_back out
calls_back (submit_headers pairs end_stream ∷ out) = calls_back out
calls_back (submit_data stream_id body ∷ out) = calls_back out
calls_back (submit_end stream_id ∷ out) = calls_back out
calls_back (submit_ping ∷ out) = calls_back out
calls_back (handshake ∷ out) = calls_back out
calls_back (read ∷ out) = calls_back out
calls_back (write bytes ∷ out) = calls_back out
calls_back (set_timer id stream_id ∷ out) = calls_back out

-- The loop of `shutdown`. The callback locks the mutex that `shutdown` holds, so the thread waits for
-- itself: `none`.
unfoldable pub close_all : Map AgentConnection → Option (List Outcome)
close_all [] = some []
close_all ((id, agent) ∷ agents) =
    let (out, agent') = close agent in
    if calls_back out
    then none
    else elim (close_all agents) [ none ↦ none | some more ↦ some (out ++ more) ]

unfoldable pub shutdown : AgentRegistry → Option (List Outcome × AgentRegistry)
shutdown r = elim (close_all r.agents) [
  | none ↦ none
  | some out ↦ some (out, record r { agents = [] })
]
