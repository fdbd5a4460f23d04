-- ===== src/Tunnels/Handlers.antt =====
-- What the handlers leave in the caches and in the agent registry.
use protogate.AgentRegistry.Laws.{IsWithin, get_agent-unregister_agent}
use protogate.AgentRegistry.{get_agent}
use protogate.Base.{
  ℕ, ◌+◌, ◌≡◌, ap, false, Bool-cases, ◌⊎◌, List, [], arith, none, some, Option-cases, inl, inr,
  length, length-append, ltb, if◌then◌else◌, Text, text_eq, text_eq_iff, text_eq_refl, codes,
}
use protogate.Models.Tunnel.{Tunnel}
use protogate.Security.Tokens.{old_key}
use protogate.Storage.Cache.{get}
use protogate.Storage.CacheLaws.{IsCache, get-put_ttl, get-remove}
use protogate.Tunnels.{
  Handler, created, year, generate_token, validate_tunnel_config, auth_token, store_tunnel,
  create_checked, handle_delete_tunnel,
}

-- What `create` leaves for a tunnel, with the token that it answers, until a year is over.
abbrev pub IsStored : (Text → Text) → ℕ → ℕ → ℕ → Tunnel → Text → Handler → Type 0
IsStored compute_token_hash now wall later t token h =
    (get later t.tunnel_id h.tunnel_cache ≡ (if ltb later (now + year) then some t else none))
    × (get later t.tunnel_id h.token_cache ≡ (
        if ltb later (now + year) then some (auth_token compute_token_hash wall token) else none))

module _ (compute_token_hash : Text → Text) (now wall : ℕ) (values : List ℕ) (t : Tunnel)
    (h : Handler) where
  -- A tunnel is created only if its configuration is valid and no tunnel of its id was cached; the reply
  -- then has the new token, and for a year the caches have the tunnel and, under its id, the hash of
  -- this token; any other reply leaves everything as it was.
  pub create_checked-IsStored :
      (later : ℕ)
      → ((create_checked compute_token_hash now wall values t h).0
            ≡ created t (generate_token values) (wall + year))
          × ((validate_tunnel_config t ≡ none)
              × ((get now t.tunnel_id h.tunnel_cache ≡ none)
                  × IsStored compute_token_hash now wall later t
                      (generate_token values)
                      (create_checked compute_token_hash now wall values t h).1.1))
        ⊎ ((create_checked compute_token_hash now wall values t h).1 ≡ ([], h))
  unfolding create_checked store_tunnel
  create_checked-IsStored later = elim (Option-cases (validate_tunnel_config t)) [
    | inr (error, bad) ↦ inr (ground (arith, bad))
    | inl fine ↦ elim (Option-cases (get now t.tunnel_id h.tunnel_cache)) [
      | inr (other, there) ↦ inr (ground (arith, fine, there))
      | inl free ↦
          let stored = get-put_ttl now later t.tunnel_id t.tunnel_id t year h.tunnel_cache in
          let token = auth_token compute_token_hash wall (generate_token values) in
          let kept = get-put_ttl now later t.tunnel_id t.tunnel_id token year h.token_cache in
          inl (
            ground (arith, fine, free),
            (
              fine,
              (
                free,
                (
                  ground (arith, fine, free, stored, text_eq_refl t.tunnel_id),
                  ground (arith, fine, free, kept, text_eq_refl t.tunnel_id),
                ),
              ),
            ),
          )
    ]
  ]

old_key_other : (id : Text) → text_eq id (old_key id) ≡ false
old_key_other id = elim (Bool-cases (text_eq id (old_key id))) [
  | inr other ↦ other
  | inl same ↦ absurd (
      omega
        (arith, length-append id (codes ":old"), ap length ((text_eq_iff id (old_key id)).0 same)))
]

abbrev pub IsSound : Handler → Type 0
IsSound h = IsCache h.tunnel_cache × (IsCache h.token_cache × IsWithin h.agent_registry)

-- After a tunnel that was cached is deleted, its id finds no tunnel, no token and no agent; but a token
-- under its id with ":old", which a rotation keeps, is found as before.
pub handle_delete_tunnel-gone :
    (now later : ℕ) (id : Text) (t : Tunnel) (h : Handler)
    → IsSound h
    → get now id h.tunnel_cache ≡ some t
    → (get later id (handle_delete_tunnel now id h).1.1.tunnel_cache ≡ none)
      × ((get later id (handle_delete_tunnel now id h).1.1.token_cache ≡ none)
          × ((get_agent id (handle_delete_tunnel now id h).1.1.agent_registry ≡ none)
              × (get later (old_key id) (handle_delete_tunnel now id h).1.1.token_cache
                  ≡ get later (old_key id) h.token_cache)))
unfolding handle_delete_tunnel
handle_delete_tunnel-gone now later id t h (tunnels, (tokens, agents)) found =
    let same = text_eq_refl id in
    (
      ground (arith, found, same, get-remove later id id h.tunnel_cache tunnels),
      (
        ground (arith, found, same, get-remove later id id h.token_cache tokens),
        (
          ground (arith, found, same, get_agent-unregister_agent id id h.agent_registry agents),
          ground (
            arith,
            found,
            old_key_other id,
            get-remove later id (old_key id) h.token_cache tokens,
          ),
        ),
      ),
    )
