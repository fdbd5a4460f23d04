-- ===== src/AgentRegistry/Laws.antt =====
-- The registry's bound and its keys, over sequences of registrations.
use protogate.AgentConnection.{AgentConnection}
use protogate.AgentRegistry.{AgentRegistry, register_agent, unregister_agent, get_agent, is_full}
use protogate.Base.{
  ◌≤◌, ◌≡◌, ◌&&◌, not, List, [], ◌∷◌, arith, none, some, length, Text, text_eq, text_eq_iff,
  count_of, IsMap, length-insert, length-erase, insert-IsMap, erase-IsMap, find-insert, find-erase,
  if◌then◌else◌, ◌==◌,
}

-- At most as many agents as the registry may have, and one for a tunnel.
abbrev pub IsWithin : AgentRegistry → Type 0
IsWithin r = (length r.agents ≤ r.max_agents) × IsMap r.agents

pub data Change : Type 0 where
  registered : Text → AgentConnection → Change
  unregistered : Text → Change

unfoldable pub change : Change → AgentRegistry → AgentRegistry
change (registered tunnel_id agent) r = (register_agent tunnel_id agent r).1
change (unregistered tunnel_id) r = unregister_agent tunnel_id r

unfoldable pub changes : List Change → AgentRegistry → AgentRegistry
changes [] r = r
changes (c ∷ cs) r = changes cs (change c r)

pub register-IsWithin :
    (id : Text) (agent : AgentConnection) (r : AgentRegistry)
    → IsWithin r
    → IsWithin (register_agent id agent r).1
unfolding register_agent
register-IsWithin id agent r (bound, keys) =
    ground (arith, length-insert id agent r.agents, insert-IsMap id agent r.agents keys)

pub unregister-IsWithin :
    (id : Text) (r : AgentRegistry) → IsWithin r → IsWithin (unregister_agent id r)
unfolding unregister_agent
unregister-IsWithin id r (bound, keys) =
    ground (arith, length-erase id r.agents, erase-IsMap id r.agents keys)

-- Any sequence of registrations and removals leaves the registry with at most `max_agents` agents, and
-- at most one for each tunnel.
pub changes-IsWithin : (cs : List Change) (r : AgentRegistry) → IsWithin r → IsWithin (changes cs r)
unfolding changes change
changes-IsWithin [] r within = within
changes-IsWithin (registered id agent ∷ cs) r within =
    changes-IsWithin cs (register_agent id agent r).1 (register-IsWithin id agent r within)
changes-IsWithin (unregistered id ∷ cs) r within =
    changes-IsWithin cs (unregister_agent id r) (unregister-IsWithin id r within)

-- What `get_agent` finds after a registration: the new agent for its tunnel where the registry had room
-- and no agent for the tunnel, which is when `register_agent` says so, and what it found before for
-- any other tunnel, or where the registration is refused.
pub get_agent-register_agent :
    (id other : Text) (agent : AgentConnection) (r : AgentRegistry)
    → ((register_agent id agent r).0 ≡ not (is_full r) && not (count_of id r.agents == 1))
      × (get_agent other (register_agent id agent r).1 ≡ (
          if (register_agent id agent r).0 && text_eq id other
          then some agent
          else get_agent other r))
unfolding register_agent get_agent is_full
get_agent-register_agent id other agent r =
    (ground arith, ground (arith, find-insert id other agent r.agents))

-- After a removal `get_agent` finds no agent for the tunnel, and for any other tunnel what it found.
pub get_agent-unregister_agent :
    (id other : Text) (r : AgentRegistry)
    → IsWithin r
    → get_agent other (unregister_agent id r)
      ≡ (if text_eq id other then none else get_agent other r)
unfolding unregister_agent get_agent
get_agent-unregister_agent id other r (bound, keys) =
    ground (arith, find-erase id other r.agents keys, text_eq_iff id other)
