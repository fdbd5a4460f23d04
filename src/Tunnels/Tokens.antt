-- ===== src/Tunnels/Tokens.antt =====
-- The tokens that the handlers give out, as the token validator reads them.
use protogate.Base.{
  ℕ, zero, suc, ◌+◌, ◌/◌, ◌%◌, ◌≤◌, ◌≡◌, refl, true, false, ◌&&◌, ◌||◌, List, [], ◌∷◌, ◌++◌, arith,
  length, length-append, take, leb, ltb, if◌then◌else◌, All, All-append, Text, text_eq, codes,
}
use protogate.Security.Tokens.{
  TokenCache, is_blank, trim_left, trim_right, has_prefix, extract_token, validate, invalid_format,
}
use protogate.Tunnels.{hex_digits, generate_token}

-- A digit in base 16, in lower case.
abbrev IsHex : ℕ → Type 0
IsHex c = (leb 48 c && leb c 57 || leb 97 c && leb c 102) ≡ true

hex_digits-IsHex : (n v : ℕ) → All IsHex (hex_digits n v)
unfolding hex_digits
hex_digits-IsHex zero v = tt
hex_digits-IsHex (suc n) v =
    let last = if ltb (v % 16) 10 then 48 + v % 16 else 87 + v % 16 in
    All-append IsHex (hex_digits n (v / 16)) (last ∷ []) (hex_digits-IsHex n (v / 16))
      (ground arith, tt)

generate_token-IsHex : (values : List ℕ) → All IsHex (generate_token values)
unfolding generate_token
generate_token-IsHex [] = tt
generate_token-IsHex (v ∷ values) =
    All-append IsHex (hex_digits 16 v) (generate_token values) (hex_digits-IsHex 16 v)
      (generate_token-IsHex values)

length-hex_digits : (n v : ℕ) → length (hex_digits n v) ≡ n
unfolding hex_digits
length-hex_digits zero v = refl
length-hex_digits (suc n) v = omega (
  arith,
  length-hex_digits n (v / 16),
  length-append (hex_digits n (v / 16))
      ((if ltb (v % 16) 10 then 48 + v % 16 else 87 + v % 16) ∷ []),
)

generate_token_some : (values : List ℕ) → 1 ≤ length values → 1 ≤ length (generate_token values)
unfolding generate_token
generate_token_some [] h = absurd (omega arith)
generate_token_some (v ∷ values) h =
    omega (arith, length-hex_digits 16 v, length-append (hex_digits 16 v) (generate_token values))

-- Trimming on the right keeps a first character that is no blank.
trim_right_first : (c : ℕ) (s : Text) → is_blank c ≡ false → take 1 (trim_right (c ∷ s)) ≡ c ∷ []
unfolding trim_right
trim_right_first c s solid = ground (arith, solid)

no_prefix : (c : ℕ) (t : Text) → IsHex c → take 1 t ≡ c ∷ [] → has_prefix (codes "tnl_") t ≡ false
unfolding has_prefix text_eq
no_prefix c [] hex first = refl
no_prefix c (d ∷ t) hex first = ground (arith, first)

hex_solid : (c : ℕ) → IsHex c → is_blank c ≡ false
unfolding is_blank
hex_solid c hex = ground arith

bearer_hex : (c : ℕ) (s : Text) → IsHex c → extract_token (codes "Bearer " ++ (c ∷ s)) ≡ []
unfolding extract_token trim_left
bearer_hex c s hex = ground (
  arith,
  hex_solid c hex,
  no_prefix c (trim_right (c ∷ s)) hex (trim_right_first c s (hex_solid c hex)),
)

bearer_token : (t : Text) → All IsHex t → 1 ≤ length t → extract_token (codes "Bearer " ++ t) ≡ []
bearer_token [] hex some_ = absurd (omega arith)
bearer_token (c ∷ t) (first, hex) some_ = bearer_hex c t first

-- Whatever the token cache holds, an agent that presents a token that was generated for its tunnel is
-- refused for the format of its header.
pub validate-generate_token :
    (compute_token_hash : Text → Text) (now wall : ℕ) (values : List ℕ) (cache : TokenCache)
    → 1 ≤ length values
    → validate compute_token_hash now wall (codes "Bearer " ++ generate_token values) cache
      ≡ invalid_format
unfolding validate
validate-generate_token compute_token_hash now wall values cache some_ = ground (
  arith,
  bearer_token (generate_token values) (generate_token-IsHex values)
      (generate_token_some values some_),
)
