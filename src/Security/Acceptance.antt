-- ===== src/Security/Acceptance.antt =====
-- Which tokens `validate_token` (src/security/token_validator.cpp) accepts, as a predicate on what the
-- cache holds.
use protogate.Base.{
  Option-cases, Bool, not, ◌&&◌, leb, if◌then◌else◌, Bool-cases, ℕ, ◌<◌, ◌≡◌, ◌≢◌, true, List, [],
  ◌∷◌, arith, Option, none, some, find, IsMap, Text, text_eq, text_eq_iff, text_eq_refl, ap, ◌∙◌,
  sym, ◌⊎◌, inl, inr, none-ne-some,
}
use protogate.Security.Tokens.{
  AuthToken, TokenCache, success, invalid_token, search_tokens, validate_token,
}
use protogate.Storage.Cache.{get, for_each}
use protogate.Storage.CacheLaws.{IsCache, find-for_each, for_each-IsMap}

-- An entry with this hash that has not expired.
abbrev pub Grants : ℕ → Text → AuthToken → Type 0
Grants wall hash t = (t.token_hash ≡ hash) × (wall < t.expires_at)

-- Tunnel `id` has such an entry at time `now` of the cache's clock.
abbrev pub Holds : ℕ → ℕ → Text → TokenCache → Text → Type 0
Holds now wall hash cache id = (t : AuthToken) × (get now id cache ≡ some t) × Grants wall hash t

search_found :
    (wall : ℕ) (hash id : Text) (l : List (Text × AuthToken))
    → search_tokens wall hash (some id) l ≢ none
unfolding search_tokens
search_found wall hash id [] = λ h. none-ne-some (sym h)
search_found wall hash id ((i, t) ∷ l) =
    ground (arith, search_found wall hash id l, search_found wall hash i l)

search_complete :
    (wall : ℕ) (hash : Text) (found : Option Text) (l : List (Text × AuthToken)) (id : Text)
    (t : AuthToken)
    → find id l ≡ some t
    → Grants wall hash t
    → search_tokens wall hash found l ≢ none
unfolding search_tokens find
search_complete wall hash found [] id t h g = absurd (none-ne-some h)
search_complete wall hash found ((i, u) ∷ l) id t h g = ground (
  arith,
  text_eq_iff i id,
  text_eq_iff u.token_hash hash,
  search_found wall hash i l,
  search_complete wall hash found l id t,
  search_complete wall hash (some i) l id t,
)

abbrev grants : ℕ → Text → AuthToken → Bool
grants wall hash t = text_eq t.token_hash hash && not (leb t.expires_at wall)

grants_sound :
    (wall : ℕ) (hash : Text) (t : AuthToken) → grants wall hash t ≡ true → Grants wall hash t
grants_sound wall hash t h = (ground (arith, text_eq_iff t.token_hash hash), ground arith)

abbrev match_of : ℕ → Text → Option Text → Text → AuthToken → Option Text
match_of wall hash found id t = if grants wall hash t then some id else found

find_later :
    (i id : Text) (u t : AuthToken) (l : List (Text × AuthToken))
    → find i l ≡ none
    → find id l ≡ some t
    → find id ((i, u) ∷ l) ≡ some t
unfolding find
find_later i id u t l fresh there = ground (arith, text_eq_iff i id)

search_sound :
    (wall : ℕ) (hash : Text) (found : Option Text) (l : List (Text × AuthToken)) (id : Text)
    → IsMap l
    → search_tokens wall hash found l ≡ some id
    → (found ≡ some id) ⊎ ((t : AuthToken) × (find id l ≡ some t) × Grants wall hash t)
unfolding search_tokens find
search_sound wall hash found [] id m h = inl h
search_sound wall hash found ((i, u) ∷ l) id (fresh, m) h =
    elim (search_sound wall hash (match_of wall hash found i u) l id m h) [
      | inl here ↦ elim (Bool-cases (grants wall hash u)) [
        | inl matched ↦ inr (u, ground (arith, text_eq_refl i), grants_sound wall hash u matched)
        | inr other ↦ inl (ground arith)
      ]
      | inr (t, there, g) ↦ inr (t, find_later i id u t l fresh there, g)
    ]

-- A token is accepted for a tunnel only if the cache holds an unexpired entry of that tunnel with
-- the token's hash.
pub validate_token-success :
    (compute_token_hash : Text → Text) (now wall : ℕ) (token : Text) (cache : TokenCache)
    (id : Text)
    → IsCache cache
    → validate_token compute_token_hash now wall token cache ≡ success id
    → Holds now wall (compute_token_hash token) cache id
unfolding validate_token
validate_token-success compute_token_hash now wall token cache id h e =
    let visited = for_each now cache in
    let hash = compute_token_hash token in
    elim (search_sound wall hash none visited id (for_each-IsMap now cache h) (ground arith)) [
      | inl never ↦ absurd (none-ne-some never)
      | inr (t, found, g) ↦ (t, sym (find-for_each now id cache h) ∙ found, g)
    ]

-- A token whose hash an unexpired entry of the cache holds is not refused, whatever the order in
-- which the cache is visited.
pub validate_token-granted :
    (compute_token_hash : Text → Text) (now wall : ℕ) (token : Text) (cache : TokenCache)
    (id : Text)
    → IsCache cache
    → Holds now wall (compute_token_hash token) cache id
    → validate_token compute_token_hash now wall token cache ≢ invalid_token
unfolding validate_token
validate_token-granted compute_token_hash now wall token cache id h (t, found, g) =
    let some_found =
      search_complete wall (compute_token_hash token) none (for_each now cache) id t
        (find-for_each now id cache h ∙ found) g in
    ground arith

validate_token_cases :
    (compute_token_hash : Text → Text) (now wall : ℕ) (token : Text) (cache : TokenCache)
    → ((id : Text) × (validate_token compute_token_hash now wall token cache ≡ success id))
      ⊎ (validate_token compute_token_hash now wall token cache ≡ invalid_token)
unfolding validate_token
validate_token_cases compute_token_hash now wall token cache =
    elim (Option-cases (search_tokens wall (compute_token_hash token) none (for_each now cache))) [
      | inl e ↦ inr (ground arith)
      | inr (id, e) ↦ inl (id, ground arith)
    ]

-- Where only one tunnel holds the hash, that tunnel is the result.
pub validate_token_only :
    (compute_token_hash : Text → Text) (now wall : ℕ) (token : Text) (cache : TokenCache)
    (id : Text)
    → IsCache cache
    → Holds now wall (compute_token_hash token) cache id
    → ((j : Text) → Holds now wall (compute_token_hash token) cache j → j ≡ id)
    → validate_token compute_token_hash now wall token cache ≡ success id
validate_token_only compute_token_hash now wall token cache id h held only =
    elim (validate_token_cases compute_token_hash now wall token cache) [
      | inl (j, e) ↦
          e
          ∙ ap success
              (only j (validate_token-success compute_token_hash now wall token cache j h e))
      | inr e ↦ absurd (validate_token-granted compute_token_hash now wall token cache id h held e)
    ]
