-- ===== src/Security/Tokens.antt =====
-- src/security/token_validator.h and .cpp. `SHA256` with its printing as hexadecimal digits is a
-- parameter. Each operation is given the time of the cache's clock and that of the wall clock.
use protogate.Base.{
  ℕ, Bool, not, ◌&&◌, ◌||◌, List, [], ◌∷◌, ◌++◌, Option, none, some, length, take, drop, leb, ◌==◌,
  if◌then◌else◌, Text, text_eq, codes,
}
use protogate.Storage.Cache.{Cache, put_ttl, get, remove, for_each}

-- `models::AuthToken`, without the plain token, which is never stored.
pub record AuthToken : Type 0 where
  pub token_hash : Text
  pub expires_at : ℕ

abbrev pub TokenCache : Type 0
TokenCache = Cache AuthToken

pub data ValidationResult : Type 0 where
  success : Text → ValidationResult
  invalid_format invalid_token : ValidationResult

-- " \t\n\r"
unfoldable pub is_blank : ℕ → Bool
is_blank c = c == 32 || c == 9 || c == 10 || c == 13

-- `erase(0, find_first_not_of(" \t\n\r"))`
unfoldable pub trim_left : Text → Text
unfolding is_blank
trim_left [] = []
trim_left (c ∷ s) = let rest = trim_left s in if is_blank c then rest else c ∷ s

-- `erase(find_last_not_of(" \t\n\r") + 1)`
unfoldable pub trim_right : Text → Text
unfolding is_blank
trim_right [] = []
trim_right (c ∷ s) = elim (trim_right s) [
  | [] ↦ if is_blank c then [] else c ∷ []
  | d ∷ rest ↦ c ∷ d ∷ rest
]

-- `s.compare(0, prefix.length(), prefix) == 0`
unfoldable pub has_prefix : Text → Text → Bool
has_prefix p s = text_eq (take (length p) s) p

-- `extract_token`; the empty text says that the header is refused.
unfoldable pub extract_token : Text → Text
extract_token header =
    let token = trim_right (trim_left (drop 7 header)) in
    if not (has_prefix (codes "Bearer ") header)
    then []
    else if not (has_prefix (codes "tnl_") token)
    then []
    else token

-- The body of the `for_each` of `validate_token`, from the first pair on; `found` is the tunnel id
-- matched so far.
unfoldable pub search_tokens : ℕ → Text → Option Text → List (Text × AuthToken) → Option Text
search_tokens wall hash found [] = found
search_tokens wall hash found ((id, t) ∷ rest) =
    search_tokens wall hash
      (if text_eq t.token_hash hash && not (leb t.expires_at wall) then some id else found) rest

module _ (compute_token_hash : Text → Text) where
  unfoldable pub validate_token : ℕ → ℕ → Text → TokenCache → ValidationResult
  validate_token now wall token cache =
      elim (search_tokens wall (compute_token_hash token) none (for_each now cache)) [
        | some id ↦ success id
        | none ↦ invalid_token
      ]

  unfoldable pub validate : ℕ → ℕ → Text → TokenCache → ValidationResult
  validate now wall header cache =
      let token = extract_token header in
      if length token == 0 then invalid_format else validate_token now wall token cache

unfoldable pub add_token : ℕ → Text → AuthToken → ℕ → TokenCache → TokenCache
add_token now id t ttl cache = put_ttl now id t ttl cache

unfoldable pub revoke_token : Text → TokenCache → TokenCache
revoke_token id cache = (remove id cache).0

abbrev pub old_key : Text → Text
old_key id = id ++ codes ":old"

-- `add_token` is called with its default, `default_ttl`.
unfoldable pub rotate_token : ℕ → Text → AuthToken → ℕ → ℕ → TokenCache → TokenCache
rotate_token now id new_token default_ttl grace_period cache =
    let added = add_token now id new_token default_ttl cache in
    elim (get now id cache) [
      | none ↦ added
      | some old ↦ put_ttl now (old_key id) old grace_period added
    ]
