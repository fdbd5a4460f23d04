-- ===== src/Security/TokenText.antt =====
-- Which headers `extract_token` (src/security/token_validator.cpp) accepts.
use protogate.Base.{
  Bool-cases, ℕ, ◌≡◌, refl, ◌∙◌, ap, true, false, [], ◌∷◌, ◌++◌, arith, length, drop, All, Text,
  text_eq_iff, codes, take_append_len, ◌⊎◌, inl, inr,
}
use protogate.Security.Tokens.{is_blank, trim_left, trim_right, has_prefix, extract_token}

abbrev pub IsBlanks : Text → Type 0
IsBlanks = All (λ c. is_blank c ≡ true)

-- The last character, of a text that has one, is no blank.
abbrev pub EndsSolid : Text → Type 0
EndsSolid [] = Unit
EndsSolid (c ∷ []) = is_blank c ≡ false
EndsSolid (c ∷ d ∷ s) = EndsSolid (d ∷ s)

trim_left-blanks :
    (l : Text) (c : ℕ) (s : Text)
    → IsBlanks l
    → is_blank c ≡ false
    → trim_left (l ++ (c ∷ s)) ≡ c ∷ s
unfolding trim_left
trim_left-blanks [] c s h solid = ground arith
trim_left-blanks (d ∷ l) c s (blank, h) solid = ground (arith, trim_left-blanks l c s h solid)

trim_right_blank : (r : Text) → IsBlanks r → trim_right r ≡ []
unfolding trim_right
trim_right_blank [] h = refl
trim_right_blank (c ∷ r) (blank, h) = ground (arith, trim_right_blank r h)

trim_right-blanks : (s r : Text) → EndsSolid s → IsBlanks r → trim_right (s ++ r) ≡ s
unfolding trim_right
trim_right-blanks [] r solid h = trim_right_blank r h
trim_right-blanks (c ∷ []) r solid h = ground (arith, trim_right_blank r h)
trim_right-blanks (c ∷ d ∷ s) r solid h = ground (arith, trim_right-blanks (d ∷ s) r solid h)

has_prefix_append : (p s : Text) → has_prefix p (p ++ s) ≡ true
unfolding has_prefix
has_prefix_append p s = (text_eq_iff _ p).1 (take_append_len (length p) p s refl)

t_solid : is_blank b't' ≡ false
unfolding is_blank
t_solid = refl

-- A header that is "Bearer ", blanks, a token with the prefix "tnl_" that does not end in a blank,
-- and blanks yields that token.
pub extract_token-bearer :
    (before s after : Text)
    → IsBlanks before
    → EndsSolid (codes "tnl_" ++ s)
    → IsBlanks after
    → extract_token (codes "Bearer " ++ (before ++ ((codes "tnl_" ++ s) ++ after)))
      ≡ codes "tnl_" ++ s
unfolding extract_token
extract_token-bearer before s after h solid h' =
    let rest = before ++ ((codes "tnl_" ++ s) ++ after) in
    let prefixed = has_prefix_append (codes "Bearer ") rest in
    let left = trim_left-blanks before b't' ((codes "nl_" ++ s) ++ after) h t_solid in
    let right = trim_right-blanks (codes "tnl_" ++ s) after solid h' in
    let tnl = has_prefix_append (codes "tnl_") s in
    let trimmed = ap trim_right left ∙ right in ground (arith, prefixed, trimmed, tnl)

-- What `extract_token` yields is empty or has the prefix "tnl_", and a header that yields a token has the
-- prefix "Bearer ".
pub extract_token-has_prefix :
    (header : Text)
    → (extract_token header ≡ [])
      ⊎ ((has_prefix (codes "tnl_") (extract_token header) ≡ true)
          × (has_prefix (codes "Bearer ") header ≡ true))
unfolding extract_token
extract_token-has_prefix header =
    let token = trim_right (trim_left (drop 7 header)) in
    elim (Bool-cases (has_prefix (codes "Bearer ") header)) [
      | inl bearer ↦ elim (Bool-cases (has_prefix (codes "tnl_") token)) [
        | inl tnl ↦ inr (ground arith, bearer)
        | inr other ↦ inl (ground arith)
      ]
      | inr other ↦ inl (ground arith)
    ]
