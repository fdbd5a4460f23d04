-- ===== src/AgentServer/Admission.antt =====
-- Which agents are connected, and what their connections do to the registry.
use protogate.AgentConnection.{AgentConnection, Outcome, new_connection, start}
use protogate.AgentRegistry.Laws.{
  IsWithin, get_agent-unregister_agent, register-IsWithin, unregister-IsWithin,
}
use protogate.AgentRegistry.{
  AgentRegistry, get_agent, is_connected, register_agent, unregister_agent, calls_back,
}
use protogate.AgentServer.{
  auth_lines, no_headers, Server, accepted, connect_agent, on_agent_disconnect, admit, authenticate,
}
use protogate.AgentServer.Header.{HasAuthorization, auth_lines-HasAuthorization}
use protogate.Base.{
  some, [], ◌≢◌, subst, text_eq, ℕ, ◌≡◌, refl, Bool, true, false, List, arith, Option, none, inl,
  inr, length, Text, text_eq_refl, count_of, if◌then◌else◌, ◌⊎◌, ◌∙◌,
}
use protogate.Security.Tokens.{
  ValidationResult, TokenCache, extract_token, has_prefix, validate, success, invalid_format,
  invalid_token,
}

result_cases :
    (r : ValidationResult)
    → ((id : Text) × (r ≡ success id)) ⊎ ((r ≡ invalid_format) ⊎ (r ≡ invalid_token))
result_cases (success id) = inl (id, refl)
result_cases invalid_format = inr (inl refl)
result_cases invalid_token = inr (inr refl)

admit-accepted :
    (compute_token_hash : Text → Text) (stoi : Text → Option ℕ) (now wall : ℕ) (ok : Bool)
    (tunnel_id ports id : Text) (s : Server) (out : List Outcome)
    → (admit compute_token_hash stoi now wall ok tunnel_id ports s).0 ≡ accepted id out
    → (id ≡ tunnel_id) × (is_connected tunnel_id s.agent_registry ≡ false)
unfolding admit
admit-accepted compute_token_hash stoi now wall ok tunnel_id ports id s out e =
    (ground (arith, e), ground (arith, e))

-- No token is read from an empty header.
validate-nothing :
    (compute_token_hash : Text → Text) (now wall : ℕ) (tokens : TokenCache) (id : Text)
    → validate compute_token_hash now wall [] tokens ≢ success id
unfolding validate extract_token has_prefix text_eq
validate-nothing compute_token_hash now wall tokens id e = ground (arith, e)

authenticate-success :
    (compute_token_hash : Text → Text) (stoi : Text → Option ℕ) (now wall : ℕ) (ok : Bool)
    (auth_data id : Text) (tokens : TokenCache) (s : Server) (out : List Outcome)
    → (authenticate compute_token_hash stoi now wall ok auth_data tokens s).0 ≡ accepted id out
    → (validate compute_token_hash now wall
          (auth_lines (length auth_data) auth_data no_headers).authorization
          tokens
        ≡ success id)
      × (is_connected id s.agent_registry ≡ false)
unfolding authenticate
authenticate-success compute_token_hash stoi now wall ok auth_data id tokens s out e =
    let h = auth_lines (length auth_data) auth_data no_headers in
    elim (result_cases (validate compute_token_hash now wall h.authorization tokens)) [
      | inr (inl bad) ↦ absurd (ground (arith, e, bad))
      | inr (inr bad) ↦ absurd (ground (arith, e, bad))
      | inl (tunnel_id, good) ↦
          let (same, free) =
            admit-accepted compute_token_hash stoi now wall ok tunnel_id h.tcp_ports id s out
              (ground (arith, e, good)) in
          (rw same good, rw same free)
    ]

-- An agent is connected for a tunnel only if a line of its request is `Authorization: ` with a value
-- from which the validator accepts a token for that tunnel, and no connected agent is registered for
-- the tunnel.
pub authenticate-accepted :
    (compute_token_hash : Text → Text) (stoi : Text → Option ℕ) (now wall : ℕ) (ok : Bool)
    (auth_data id : Text) (tokens : TokenCache) (s : Server) (out : List Outcome)
    → (authenticate compute_token_hash stoi now wall ok auth_data tokens s).0 ≡ accepted id out
    → ((value : Text) × HasAuthorization auth_data value
        × (validate compute_token_hash now wall value tokens ≡ success id))
      × (is_connected id s.agent_registry ≡ false)
authenticate-accepted compute_token_hash stoi now wall ok auth_data id tokens s out e =
    let (valid, free) =
      authenticate-success compute_token_hash stoi now wall ok auth_data id tokens s out e in
    let value = (auth_lines (length auth_data) auth_data no_headers).authorization in
    elim (auth_lines-HasAuthorization (length auth_data) auth_data no_headers) [
      | inr stands ↦ ((value, stands, valid), free)
      | inl nothing ↦ absurd (
          validate-nothing compute_token_hash now wall tokens id
            (subst (λ v. validate compute_token_hash now wall v tokens ≡ success id) nothing valid))
    ]

-- Another agent of the tunnel is refused.
register-refused :
    (id : Text) (first agent : AgentConnection) (r : AgentRegistry)
    → get_agent id r ≡ some first
    → get_agent id (register_agent id agent r).1 ≡ get_agent id r
unfolding get_agent register_agent count_of
register-refused id first agent r there = ground (arith, there)

left-IsWithin :
    (called : Bool) (id : Text) (r : AgentRegistry)
    → IsWithin r
    → IsWithin (if called then unregister_agent id r else r)
left-IsWithin true id r within = unregister-IsWithin id r within
left-IsWithin (false) id r within = within

-- An agent that connects for a tunnel that has an agent, and whose connection starts without an
-- error, leaves that agent registered; but when its connection ends, no agent is registered for the
-- tunnel.
pub on_agent_disconnect-connect_agent :
    (now : ℕ) (ok : Bool) (id : Text) (first : AgentConnection) (r : AgentRegistry)
    → IsWithin r
    → get_agent id r ≡ some first
    → calls_back (start now ok (new_connection id)).0 ≡ false
    → (get_agent id (connect_agent now ok id r).1 ≡ some first)
      × (get_agent id (on_agent_disconnect id (connect_agent now ok id r).1) ≡ none)
unfolding on_agent_disconnect connect_agent
on_agent_disconnect-connect_agent now ok id first r within there starts =
    let started = start now ok (new_connection id) in
    let registered = (register_agent id started.1 r).1 in
    let left = if calls_back started.0 then unregister_agent id registered else registered in
    let kept =
      left-IsWithin (calls_back started.0) id registered
        (register-IsWithin id started.1 r within) in
    (
      rw starts (register-refused id first started.1 r there ∙ there),
      get_agent-unregister_agent id id left kept ∙ ground (arith, text_eq_refl id),
    )
