-- ===== src/AgentRegistry/Examples.antt =====
-- The registry at concrete agents.
use protogate.AgentConnection.{AgentConnection, new_connection}
use protogate.AgentRegistry.Laws.{
  IsWithin, Change, registered, unregistered, changes, changes-IsWithin, get_agent-register_agent,
  get_agent-unregister_agent,
}
use protogate.AgentRegistry.Shutdown.{IsCalling, shutdown-none_iff}
use protogate.AgentRegistry.{
  AgentRegistry, new_registry, register_agent, unregister_agent, get_agent, is_connected, count,
  is_full, get_tunnel_ids, shutdown,
}
use protogate.Base.{
  ℕ, ◌≡◌, ◌↔◌, refl, arith, true, false, not, ◌&&◌, List, [], ◌∷◌, Any, some, none, codes, Text,
  count_of, if◌then◌else◌, text_eq, ◌==◌,
}

abbrev agent : AgentConnection
agent = new_connection (codes "db")

abbrev history : List Change
history =
    registered (codes "db") agent
    ∷ registered (codes "web") agent
    ∷ registered (codes "db") agent
    ∷ unregistered (codes "web")
    ∷ registered (codes "api") agent
    ∷ registered (codes "mail") agent
    ∷ []

ids_test : get_tunnel_ids (changes history (new_registry 2)) ≡ codes "db" ∷ codes "api" ∷ []
unfolding get_tunnel_ids changes protogate.AgentRegistry.Laws.change register_agent unregister_agent
    protogate.Base.find new_registry count_of protogate.Base.insert text_eq protogate.Base.erase
ids_test = refl

full_test : is_full (changes history (new_registry 2)) ≡ true
unfolding is_full changes protogate.AgentRegistry.Laws.change register_agent unregister_agent
    protogate.Base.find new_registry count_of protogate.Base.insert text_eq protogate.Base.erase
full_test = refl

connected_test : is_connected (codes "api") (changes history (new_registry 2)) ≡ true
unfolding is_connected get_agent protogate.Base.find changes protogate.AgentRegistry.Laws.change
    register_agent unregister_agent new_registry count_of protogate.Base.insert text_eq
    protogate.Base.erase new_connection
connected_test = refl

abbrev one_agent : AgentRegistry
one_agent = record {
  max_agents = 2;
  agents = (codes "db", record agent { has_on_disconnect = true }) ∷ [];
}

shutdown-none_iff_example : (shutdown one_agent ≡ none) ↔ Any IsCalling one_agent.agents
shutdown-none_iff_example = shutdown-none_iff one_agent
