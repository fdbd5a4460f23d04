-- ===== src/Security/Rotation.antt =====
-- What `rotate_token` and `revoke_token` (src/security/token_validator.cpp) make of the tokens that are
-- accepted.
use protogate.Base.{
  false≢true, subst, ltb, if◌then◌else◌, Bool-cases, ℕ, ◌+◌, ◌<◌, ◌≡◌, ◌≢◌, false, arith, none,
  some, length, length-append, Text, text_eq, text_eq_iff, text_eq_refl, codes, ap, ◌∙◌, sym, ◌⊎◌,
  inl, inr,
}
use protogate.Security.Tokens.{
  AuthToken, TokenCache, success, validate_token, add_token, revoke_token, old_key, rotate_token,
}
use protogate.Storage.Cache.{remove, put_ttl, get}
use protogate.Storage.CacheLaws.{IsCache, get-put_ttl, get-remove, put_ttl-IsCache, remove-IsCache}
use protogate.Security.Acceptance.{Grants, Holds, validate_token_only}

rotate_token_found :
    (now : ℕ) (id : Text) (new_token old : AuthToken) (ttl grace : ℕ) (cache : TokenCache)
    → get now id cache ≡ some old
    → put_ttl now (old_key id) old grace (put_ttl now id new_token ttl cache)
      ≡ rotate_token now id new_token ttl grace cache
unfolding rotate_token add_token
rotate_token_found now id new_token old ttl grace cache e = ground (arith, e)

rotate_token-IsCache :
    (now : ℕ) (id : Text) (new_token old : AuthToken) (ttl grace : ℕ) (cache : TokenCache)
    → get now id cache ≡ some old
    → IsCache cache
    → IsCache (rotate_token now id new_token ttl grace cache)
rotate_token-IsCache now id new_token old ttl grace cache e h =
    subst IsCache (rotate_token_found now id new_token old ttl grace cache e) (
      put_ttl-IsCache now (old_key id) old grace (put_ttl now id new_token ttl cache)
        (put_ttl-IsCache now id new_token ttl cache h))

-- After `rotate_token` a tunnel's key holds the new token, and its key with ":old" the token it had,
-- for the grace period; every other key reads as before.
pub get-rotate_token :
    (now later : ℕ) (id j : Text) (new_token old : AuthToken) (ttl grace : ℕ) (cache : TokenCache)
    → get now id cache ≡ some old
    → get later j (rotate_token now id new_token ttl grace cache) ≡ (
        if text_eq (old_key id) j
        then (if ltb later (now + grace) then some old else none)
        else if text_eq id j
        then (if ltb later (now + ttl) then some new_token else none)
        else get later j cache)
unfolding rotate_token add_token
get-rotate_token now later id j new_token old ttl grace cache h = ground (
  arith,
  h,
  get-put_ttl now later (old_key id) j old grace (put_ttl now id new_token ttl cache),
  get-put_ttl now later id j new_token ttl cache,
)

old_key_differs : (id : Text) → old_key id ≢ id
old_key_differs id e = omega (arith, length-append id (codes ":old"), ap length e)

-- While tunnel `id`'s own token is the only one with its hash, the new token has another hash and the
-- grace period lasts, the old token is still accepted after a rotation, but for a tunnel of the
-- name `id` with ":old" behind it; and it is accepted so even after the tunnel's token was revoked.
pub rotate_token-validate_token :
    (compute_token_hash : Text → Text) (now later wall : ℕ) (token id : Text)
    (new_token old : AuthToken)
    → (ttl grace : ℕ) (cache : TokenCache) → IsCache cache
    → get now id cache ≡ some old
    → Grants wall (compute_token_hash token) old
    → new_token.token_hash ≢ compute_token_hash token
    → ((j : Text) → Holds later wall (compute_token_hash token) cache j → j ≡ id)
    → later < now + grace
    → (validate_token compute_token_hash later wall token
          (rotate_token now id new_token ttl grace cache)
        ≡ success (old_key id))
      × (validate_token compute_token_hash later wall token
            (revoke_token id (rotate_token now id new_token ttl grace cache))
          ≡ success (old_key id))
unfolding revoke_token
rotate_token-validate_token compute_token_hash now later wall token id new_token old ttl grace cache
      h e g new only order =
    (
      validate_token_only compute_token_hash later wall token rotated (old_key id) rotated_cache
          (old, kept, g) only_old,
      validate_token_only compute_token_hash later wall token (remove id rotated).0 (old_key id)
          (remove-IsCache id rotated rotated_cache) (old, kept_on, g) only_old_on,
    )
  where
    rotated : TokenCache
    rotated = rotate_token now id new_token ttl grace cache

    rotated_cache : IsCache rotated
    rotated_cache = rotate_token-IsCache now id new_token old ttl grace cache e h

    hash : Text
    hash = compute_token_hash token

    kept : get later (old_key id) rotated ≡ some old
    kept = ground (
      arith,
      get-rotate_token now later id (old_key id) new_token old ttl grace cache e,
      text_eq_refl (old_key id),
    )

    kept_on : get later (old_key id) (remove id rotated).0 ≡ some old
    kept_on = ground (
      arith,
      kept,
      get-remove later id (old_key id) rotated rotated_cache,
      text_eq_iff id (old_key id),
      old_key_differs id,
    )

    -- A key that is read from the rotated cache and is not that of the old token.
    elsewhere :
        (j : Text) (t : AuthToken)
        → text_eq (old_key id) j ≡ false
        → get later j rotated ≡ some t
        → (t ≡ new_token) ⊎ ((get later j cache ≡ some t) × (text_eq id j ≡ false))
    elsewhere j t differs there = elim (Bool-cases (text_eq id j)) [
      | inl same ↦
          inl (ground (arith, get-rotate_token now later id j new_token old ttl grace cache e))
      | inr other ↦
          inr
            (ground (arith, get-rotate_token now later id j new_token old ttl grace cache e), other)
    ]

    only_old : (j : Text) → Holds later wall hash rotated j → j ≡ old_key id
    only_old j (t, there, granted) = elim (Bool-cases (text_eq (old_key id) j)) [
      | inl same ↦ sym ((text_eq_iff (old_key id) j).0 same)
      | inr differs ↦ elim (elsewhere j t differs there) [
        | inl is_new ↦ absurd (new (ap (λ u. u.token_hash) (sym is_new) ∙ granted.0))
        | inr (before, other) ↦
            let same = only j (t, before, granted) in
            absurd (false≢true (sym other ∙ (text_eq_iff id j).1 (sym same)))
      ]
    ]

    only_old_on : (j : Text) → Holds later wall hash (remove id rotated).0 j → j ≡ old_key id
    only_old_on j (t, there, granted) =
        only_old j (t, ground (arith, get-remove later id j rotated rotated_cache), granted)
