-- ===== src/Models/TunnelId.antt =====
-- What `is_valid_tunnel_id` and `validate` (src/models/tunnel.cpp) accept.
use protogate.Base.{
  ℕ, ◌≤◌, ◌≡◌, ◌≢◌, ◌↔◌, ◌⊎◌, inl, refl, true, false≢true, List, [], ◌∷◌, arith, length, ok, All,
  Any, Text,
}
use protogate.Models.Tunnel.{
  Tunnel, is_alnum, matches_rest, is_valid_tunnel_id, has_slash, check_cidrs, validate,
}

-- A lower-case letter or a digit.
abbrev pub IsAlnum : ℕ → Type 0
IsAlnum c = ((97 ≤ c) × (c ≤ 122)) ⊎ ((48 ≤ c) × (c ≤ 57))

abbrev pub IsLabelChar : ℕ → Type 0
IsLabelChar c = IsAlnum c ⊎ (c ≡ b'-')

-- The last character, of a text that has one.
abbrev pub EndsAlnum : Text → Type 0
EndsAlnum [] = ⊥
EndsAlnum (c ∷ []) = IsAlnum c
EndsAlnum (c ∷ d ∷ s) = EndsAlnum (d ∷ s)

abbrev pub BeginsAlnum : Text → Type 0
BeginsAlnum [] = ⊥
BeginsAlnum (c ∷ s) = IsAlnum c

is_alnum_iff : (c : ℕ) → (is_alnum c ≡ true) ↔ IsAlnum c
unfolding is_alnum
is_alnum_iff c = (λ h. ground arith, λ h. ground arith)

matches_rest_sound : (s : Text) → matches_rest s ≡ true → All IsLabelChar s × EndsAlnum s
unfolding matches_rest
matches_rest_sound [] h = absurd (false≢true h)
matches_rest_sound (c ∷ []) h = ground arith
matches_rest_sound (c ∷ d ∷ s) h = ground (arith, matches_rest_sound (d ∷ s))

matches_rest_complete : (s : Text) → All IsLabelChar s → EndsAlnum s → matches_rest s ≡ true
unfolding matches_rest
matches_rest_complete [] h e = absurd e
matches_rest_complete (c ∷ []) h e = ground arith
matches_rest_complete (c ∷ d ∷ s) (h, hs) e = ground (arith, matches_rest_complete (d ∷ s) hs e)

-- A valid tunnel id is a text of 3 to 63 characters, each a lower-case letter, a digit or a hyphen,
-- of which the first and the last are no hyphens; and every such text is one.
pub is_valid_tunnel_id_iff :
    (id : Text)
    → (is_valid_tunnel_id id ≡ true)
      ↔ ((3 ≤ length id) × (length id ≤ 63) × All IsLabelChar id × BeginsAlnum id × EndsAlnum id)
unfolding is_valid_tunnel_id
is_valid_tunnel_id_iff [] = (λ h. absurd (false≢true h), λ h. absurd h.3)
is_valid_tunnel_id_iff (c ∷ []) = (λ h. absurd (false≢true h), λ h. absurd (omega arith))
is_valid_tunnel_id_iff (c ∷ d ∷ s) = (sound, complete)
  where
    sound :
        is_valid_tunnel_id (c ∷ d ∷ s) ≡ true
        → (3 ≤ length (c ∷ d ∷ s))
          × (length (c ∷ d ∷ s) ≤ 63)
          × All IsLabelChar (c ∷ d ∷ s)
          × IsAlnum c
          × EndsAlnum (d ∷ s)
    sound h =
        let first : is_alnum c ≡ true = ground arith in
        let (chars, last) = matches_rest_sound (d ∷ s) (ground arith) in
        let alnum = (is_alnum_iff c).0 first in
        (ground arith, ground arith, (inl alnum, chars), alnum, last)

    complete :
        (3 ≤ length (c ∷ d ∷ s))
          × (length (c ∷ d ∷ s) ≤ 63)
          × All IsLabelChar (c ∷ d ∷ s)
          × IsAlnum c
          × EndsAlnum (d ∷ s)
        → is_valid_tunnel_id (c ∷ d ∷ s) ≡ true
    complete h =
        let rest = matches_rest_complete (d ∷ s) h.2.1 h.4 in
        let first = (is_alnum_iff c).1 h.3 in ground (arith, rest, first)

-- The text is not empty and has a slash.
abbrev pub HasSlash : Text → Type 0
HasSlash = Any (λ c. c ≡ b'/')

has_slash_iff : (s : Text) → (has_slash s ≡ true) ↔ HasSlash s
unfolding has_slash
has_slash_iff [] = (λ h. false≢true h, λ h. absurd h)
has_slash_iff (c ∷ s) =
    let (sound, complete) = has_slash_iff s in
    (λ h. ground (arith, sound), λ h. ground (arith, complete))

HasSlash-length : (s : Text) → HasSlash s → length s ≢ 0
HasSlash-length [] h = absurd h
HasSlash-length (c ∷ s) h = omega arith

check_cidrs_iff : (l : List Text) → (check_cidrs l ≡ ok tt) ↔ All HasSlash l
unfolding check_cidrs
check_cidrs_iff [] = (λ h. tt, λ h. refl)
check_cidrs_iff (cidr ∷ l) =
    let (sound, complete) = check_cidrs_iff l in
    let (slash, text) = has_slash_iff cidr in
    (
      λ h. (slash (ground arith), sound (ground arith)),
      λ h.
          let some_slash = text h.0 in
          let rest = complete h.1 in
          let nonempty = HasSlash-length cidr h.0 in ground (arith, some_slash, rest, nonempty),
    )

pub length-zero_iff : (s : Text) → (s ≡ []) ↔ (length s ≡ 0)
length-zero_iff [] = (λ h. refl, λ h. refl)
length-zero_iff (c ∷ s) = (λ h. cc, λ h. absurd (omega arith))

-- `validate` accepts a tunnel exactly if its id is valid, its host is not empty, its port is not 0,
-- its rate limit is at most 1,000,000 and every entry of its allowlist has a slash.
pub validate-ok_iff :
    (t : Tunnel)
    → (validate t ≡ ok tt) ↔ (
        (is_valid_tunnel_id t.tunnel_id ≡ true)
        × (t.target_host ≢ [])
        × (t.target_port ≢ 0)
        × (t.rate_limit_rpm ≤ 1000000)
        × All HasSlash t.ip_allowlist)
unfolding validate
validate-ok_iff t = (sound, complete)
  where
    cidrs : (check_cidrs t.ip_allowlist ≡ ok tt) ↔ All HasSlash t.ip_allowlist
    cidrs = check_cidrs_iff t.ip_allowlist

    host : (t.target_host ≡ []) ↔ (length t.target_host ≡ 0)
    host = length-zero_iff t.target_host

    sound :
        validate t ≡ ok tt
        → (is_valid_tunnel_id t.tunnel_id ≡ true)
          × (t.target_host ≢ [])
          × (t.target_port ≢ 0)
          × (t.rate_limit_rpm ≤ 1000000)
          × All HasSlash t.ip_allowlist
    sound h = (
      ground arith,
      λ e. ground (arith, host.0 e),
      λ e. ground arith,
      ground arith,
      cidrs.0 (ground arith),
    )

    complete :
        (is_valid_tunnel_id t.tunnel_id ≡ true)
          × (t.target_host ≢ [])
          × (t.target_port ≢ 0)
          × (t.rate_limit_rpm ≤ 1000000)
          × All HasSlash t.ip_allowlist
        → validate t ≡ ok tt
    complete (id, nonempty, port, rate, slashes) =
        let all = cidrs.1 slashes in ground (arith, host.1, all)
