-- ===== src/Allowlist/Lists.antt =====
-- `add_cidr` and `from_cidr_list` (src/security/ip_allowlist.cpp): a list from its texts.
use protogate.Allowlist.Normal.{IsNormal, parse_cidr-IsNormal}
use protogate.Allowlist.Parse.{parse_cidr}
use protogate.Allowlist.{CidrRange, IpAllowlist, Pton}
use protogate.Base.{
  ◌≡◌, inl, inr, refl, ◌∙◌, ap, Bool, true, false, not, List, [], ◌∷◌, ◌++◌, Option, none, some,
  Option-cases, All, append-nil, append_assoc, IfSome, IfSome_some, if◌then◌else◌,
}
use protogate.Wire.{Bytes}

module _ (net : Pton) where
  unfoldable pub add_cidr : IpAllowlist → Bytes → IpAllowlist × Bool
  add_cidr ranges s = elim (parse_cidr net s) [
    | none ↦ (ranges, false)
    | some range ↦ (ranges ++ (range ∷ []), true)
  ]

  add_cidr_refused :
      (ranges : IpAllowlist) (s : Bytes)
      → parse_cidr net s ≡ none
      → add_cidr ranges s ≡ (ranges, false)
  unfolding add_cidr
  add_cidr_refused ranges s e = rw (e, add_cidr)

  add_cidr_accepted :
      (ranges : IpAllowlist) (s : Bytes) (range : CidrRange)
      → parse_cidr net s ≡ some range
      → add_cidr ranges s ≡ (ranges ++ (range ∷ []), true)
  unfolding add_cidr
  add_cidr_accepted ranges s range e = rw (e, add_cidr)

  -- The loop over the texts that are left.
  add_all : IpAllowlist → List Bytes → Option IpAllowlist
  add_all ranges [] = some ranges
  add_all ranges (s ∷ texts) =
      let (ranges', added) = add_cidr ranges s in
      let rest = add_all ranges' texts in if not added then none else rest

  unfoldable pub from_cidr_list : List Bytes → Option IpAllowlist
  unfolding add_all add_cidr
  from_cidr_list texts = add_all [] texts

  -- The ranges that the texts denote, one for each, if all of them are well formed.
  unfoldable pub denoted : List Bytes → Option IpAllowlist
  denoted [] = some []
  denoted (s ∷ texts) = elim (parse_cidr net s) [
    | none ↦ none
    | some range ↦ elim (denoted texts) [ none ↦ none | some ranges ↦ some (range ∷ ranges) ]
  ]

  abbrev prepend : IpAllowlist → Option IpAllowlist → Option IpAllowlist
  prepend ranges none = none
  prepend ranges (some more) = some (ranges ++ more)

  add_all-denoted :
      (ranges : IpAllowlist) (texts : List Bytes)
      → add_all ranges texts ≡ prepend ranges (denoted texts)
  unfolding add_all denoted
  add_all-denoted ranges [] = rw append-nil
  add_all-denoted ranges (s ∷ texts) = elim (Option-cases (parse_cidr net s)) [
    | inl bad ↦ rw (add_cidr_refused ranges s bad, bad, denoted)
    | inr (range, good) ↦
        rw
          (
            add_cidr_accepted ranges s range good,
            good,
            denoted,
            add_all-denoted (ranges ++ (range ∷ [])) texts,
          )
          (elim (Option-cases (denoted texts)) [
            | inl stop ↦ rw (stop, prepend)
            | inr (more, rest) ↦
                rw (rest, prepend) (ap some (append_assoc ranges (range ∷ []) more))
          ])
  ]

  -- `from_cidr_list` gives the ranges of all texts in their order, or nothing if one of them is
  -- refused.
  pub from_cidr_list-denoted : (texts : List Bytes) → from_cidr_list texts ≡ denoted texts
  unfolding from_cidr_list
  from_cidr_list-denoted texts = add_all-denoted [] texts ∙ id (denoted texts)
    where
      id : (o : Option IpAllowlist) → prepend [] o ≡ o
      id none = refl
      id (some ranges) = refl

  pub denoted-IsNormal : (texts : List Bytes) → IfSome (All IsNormal) (denoted texts)
  unfolding denoted
  denoted-IsNormal [] = tt
  denoted-IsNormal (s ∷ texts) = elim (Option-cases (parse_cidr net s)) [
    | inl bad ↦ rw (bad, denoted) tt
    | inr (range, good) ↦ elim (Option-cases (denoted texts)) [
      | inl stop ↦ rw (good, stop, denoted) tt
      | inr (more, rest) ↦
          rw (good, rest, denoted)
            (
              parse_cidr-IsNormal net s range good,
              IfSome_some (All IsNormal) (denoted-IsNormal texts) rest,
            )
    ]
  ]
