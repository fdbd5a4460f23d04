-- ===== src/Allowlist/Access.antt =====
-- `is_allowed` (src/security/ip_allowlist.cpp): which addresses a list lets in.
use protogate.Allowlist.Bits.{SamePrefix}
use protogate.Allowlist.Lists.{from_cidr_list, denoted, from_cidr_list-denoted, denoted-IsNormal}
use protogate.Allowlist.Match.{matches_cidr_iff}
use protogate.Allowlist.Normal.{size_of, IsNormal}
use protogate.Allowlist.Parse.{parse_cidr}
use protogate.Allowlist.{
  IpType, ipv4, ipv6, CidrRange, IpAllowlist, Pton, matches_cidr, any_match, is_type, parse_ipv4,
  parse_ipv6, c_str, is_allowed,
}
use protogate.Base.{
  ◌≡◌, ◌↔◌, inl, inr, refl, sym, ◌∙◌, ap, true, false, false≢true, ◌&&◌, &&-true, ||_iff, List, [],
  ◌∷◌, arith, length, none, some, Option-cases, All, IfSome_some, Any, eq_of_some, none-ne-some,
  subst,
}
use protogate.Wire.Integers.{IsBytes}
use protogate.Wire.{Bytes}

-- The range is of the family, and the address begins with its prefix.
abbrev pub Covers : IpType → Bytes → CidrRange → Type 0
Covers type b range = (range.type ≡ type) × SamePrefix range.prefix_length b range.network

is_type_sound : (s t : IpType) → is_type s t ≡ true → s ≡ t
unfolding is_type
is_type_sound ipv4 ipv4 h = refl
is_type_sound ipv6 ipv6 h = refl
is_type_sound ipv4 ipv6 h = cc
is_type_sound ipv6 ipv4 h = cc

is_type_complete : (s t : IpType) → s ≡ t → is_type s t ≡ true
unfolding is_type
is_type_complete s t e = ground arith

matches_iff :
    (type : IpType) (b : Bytes) (range : CidrRange)
    → length b ≡ size_of type
    → IsBytes b
    → IsNormal range
    → ((is_type range.type type && matches_cidr b range) ≡ true) ↔ Covers type b range
matches_iff type b range size bytes normal = (sound, complete)
  where
    iff :
        range.type ≡ type
        → (matches_cidr b range ≡ true) ↔ SamePrefix range.prefix_length b range.network
    iff e =
        let same : length b ≡ length range.network = size ∙ ap size_of (sym e) ∙ sym normal.size in
        matches_cidr_iff b range bytes normal.bytes same (rw normal.size normal.fits)

    sound : (is_type range.type type && matches_cidr b range) ≡ true → Covers type b range
    sound h =
        let (t, m) = &&-true (is_type range.type type) (matches_cidr b range) h in
        let e = is_type_sound range.type type t in (e, (iff e).0 m)

    complete : Covers type b range → (is_type range.type type && matches_cidr b range) ≡ true
    complete (e, same) = rw (is_type_complete range.type type e, (iff e).1 same)

any_match_iff :
    (type : IpType) (b : Bytes) (ranges : IpAllowlist)
    → length b ≡ size_of type
    → IsBytes b
    → All IsNormal ranges
    → (any_match type b ranges ≡ true) ↔ Any (Covers type b) ranges
unfolding any_match
any_match_iff type b [] size bytes normal = (λ h. false≢true h, λ h. absurd h)
any_match_iff type b (range ∷ ranges) size bytes normal =
    ||_iff (matches_iff type b range size bytes normal.0)
      (any_match_iff type b ranges size bytes normal.1)

module _ (net : Pton) where
  open net use {pton4_size, pton6_size, pton4_bytes, pton6_bytes}

  -- The text is read as this address of this family; IPv4 is tried first.
  abbrev pub AddressOf : IpType → Bytes → Bytes → Type 0
  AddressOf ipv4 s b = net.pton4 (c_str s) ≡ some b
  AddressOf ipv6 s b = (net.pton4 (c_str s) ≡ none) × (net.pton6 (c_str s) ≡ some b)

  AddressOf-size :
      (type : IpType) (s b : Bytes) → AddressOf type s b → (length b ≡ size_of type) × IsBytes b
  AddressOf-size ipv4 s b h = (pton4_size _ b h, pton4_bytes _ b h)
  AddressOf-size ipv6 s b h = (pton6_size _ b h.1, pton6_bytes _ b h.1)

  is_allowed-any_match :
      (type : IpType) (range : CidrRange) (ranges : IpAllowlist) (s b : Bytes)
      → AddressOf type s b
      → is_allowed net (range ∷ ranges) s ≡ any_match type b (range ∷ ranges)
  unfolding is_allowed parse_ipv4 parse_ipv6
  is_allowed-any_match ipv4 range ranges s b h = ground arith
  is_allowed-any_match ipv6 range ranges s b h = ground arith

  -- With a non-empty list of normal ranges, an address passes exactly if a range of its family
  -- covers it.
  is_allowed_iff :
      (type : IpType) (range : CidrRange) (ranges : IpAllowlist) (s b : Bytes)
      → AddressOf type s b
      → All IsNormal (range ∷ ranges)
      → (is_allowed net (range ∷ ranges) s ≡ true) ↔ Any (Covers type b) (range ∷ ranges)
  is_allowed_iff type range ranges s b h normal =
      let (size, bytes) = AddressOf-size type s b h in
      rw (is_allowed-any_match type range ranges s b h)
        (any_match_iff type b (range ∷ ranges) size bytes normal)

  -- The text denotes a range that covers the address.
  abbrev pub TextCovers : IpType → Bytes → Bytes → Type 0
  TextCovers type b text =
      (range : CidrRange) × (parse_cidr net text ≡ some range) × Covers type b range

  Any-denoted :
      (type : IpType) (b : Bytes) (texts : List Bytes) (ranges : IpAllowlist)
      → denoted net texts ≡ some ranges
      → Any (Covers type b) ranges ↔ Any (TextCovers type b) texts
  unfolding denoted
  Any-denoted type b [] ranges e = rw (← eq_of_some e) (λ h. h, λ h. h)
  Any-denoted type b (s ∷ texts) ranges e = elim (Option-cases (parse_cidr net s)) [
    | inl bad ↦ absurd (none-ne-some (rw (bad, denoted) at e))
    | inr (range, good) ↦ elim (Option-cases (denoted net texts)) [
      | inl stop ↦ absurd (none-ne-some (rw (good, stop, denoted) at e))
      | inr (more, rest) ↦
          let (sound, complete) = Any-denoted type b texts more rest in
          rw (← eq_of_some (rw (good, rest, denoted) at e)) (
            λ h. elim h [ inl c ↦ inl (range, good, c) | inr later ↦ inr (sound later) ],
            λ h. elim h [
              | inl c ↦ inl (subst (Covers type b) (eq_of_some (sym c.1 ∙ good)) c.2)
              | inr later ↦ inr (complete later)
            ],
          )
    ]
  ]

  denoted-ne-nil : (text : Bytes) (texts : List Bytes) → denoted net (text ∷ texts) ≡ some [] → ⊥
  unfolding denoted
  denoted-ne-nil text texts e = ground arith

  -- A list made of at least one text lets an address in exactly if one of the texts denotes a range
  -- of its family with the address's first bits.
  pub from_cidr_list-is_allowed_iff :
      (type : IpType) (text : Bytes) (texts : List Bytes) (ranges : IpAllowlist) (s b : Bytes)
      → from_cidr_list net (text ∷ texts) ≡ some ranges
      → AddressOf type s b
      → (is_allowed net ranges s ≡ true) ↔ Any (TextCovers type b) (text ∷ texts)
  from_cidr_list-is_allowed_iff type text texts ranges s b made h =
      go ranges (sym (from_cidr_list-denoted net (text ∷ texts)) ∙ made)
    where
      go :
          (ranges : IpAllowlist)
          → denoted net (text ∷ texts) ≡ some ranges
          → (is_allowed net ranges s ≡ true) ↔ Any (TextCovers type b) (text ∷ texts)
      go [] e = absurd (denoted-ne-nil text texts e)
      go (range ∷ more) e =
          let normal = IfSome_some (All IsNormal) (denoted-IsNormal net (text ∷ texts)) e in
          let (sound, complete) = is_allowed_iff type range more s b h normal in
          let (there, back) = Any-denoted type b (text ∷ texts) (range ∷ more) e in
          (λ x. there (sound x), λ y. complete (back y))

  -- A non-empty list refuses a text that is no address.
  pub is_allowed_malformed :
      (range : CidrRange) (ranges : IpAllowlist) (s : Bytes)
      → net.pton4 (c_str s) ≡ none
      → net.pton6 (c_str s) ≡ none
      → is_allowed net (range ∷ ranges) s ≡ false
  unfolding is_allowed parse_ipv4 parse_ipv6
  is_allowed_malformed range ranges s four six = ground arith
