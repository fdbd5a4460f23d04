-- ===== src/Allowlist/Normal.antt =====
-- The form of the ranges that `parse_cidr` (src/security/ip_allowlist.cpp) yields.
use Prim.Native.Nat.{bit_and}
use protogate.Allowlist.Bits.{bit_at, SamePrefix, bit_of-bit_and, bit_and-mask_of_lt}
use protogate.Allowlist.{
  IpType, ipv4, ipv6, CidrRange, Pton, mask_of, zero_host_bits, parse_ipv4, parse_ipv6, c_str,
}
use protogate.Base.{
  ℕ, zero, suc, ◌+◌, ◌*◌, ◌/◌, ◌%◌, ◌<◌, ◌≤◌, ◌≡◌, ◌↔◌, refl, sym, ◌∙◌, ap, IfSome, IfSome_some,
  inl, inr, Bool-cases, true, ◌&&◌, [], ◌∷◌, arith, length, Option, none, some, Option-cases, ltb,
  ◌==◌, if◌then◌else◌,
}
use protogate.Wire.Integers.{IsBytes, byte_at_lt}
use protogate.Wire.{Bytes, byte_at}
use protogate.Allowlist.Parse.{
  Signed, in_range, masked_range, whole, parse_single, parse_with_prefix, parse_cidr, split_slash,
  stoi,
}

-- The bytes of an address of the family.
abbrev pub size_of : IpType → ℕ
size_of ipv4 = 4
size_of ipv6 = 16

-- A range whose address has the size of its family, whose prefix fits it, and whose bits behind the
-- prefix are 0.
pub record IsNormal (range : CidrRange) : Type 0 where
  pub size : length range.network ≡ size_of range.type
  pub bytes : IsBytes range.network
  pub fits : range.prefix_length ≤ 8 * size_of range.type
  pub clear :
      (i : ℕ) → range.prefix_length ≤ i → i < 8 * size_of range.type → bit_at range.network i ≡ 0

length-zero_host_bits : (f r i : ℕ) (b : Bytes) → length (zero_host_bits f r i b) ≡ length b
unfolding zero_host_bits
length-zero_host_bits f r i [] = refl
length-zero_host_bits f r i (x ∷ b) = ap suc (length-zero_host_bits f r (i + 1) b)

zero_host_bits-IsBytes :
    (f r i : ℕ) (b : Bytes) → r < 8 → IsBytes b → IsBytes (zero_host_bits f r i b)
unfolding zero_host_bits
zero_host_bits-IsBytes f r i [] hr h = tt
zero_host_bits-IsBytes f r i (x ∷ b) hr h =
    (ground (arith, bit_and-mask_of_lt r x hr h.0), zero_host_bits-IsBytes f r (i + 1) b hr h.1)

byte_at-zero_host_bits :
    (f r i : ℕ) (b : Bytes) (n : ℕ)
    → n < length b
    → byte_at (zero_host_bits f r i b) n ≡ (
        if ltb (i + n) f
        then byte_at b n
        else if i + n == f && ltb 0 r
        then bit_and (byte_at b n) (mask_of r)
        else 0)
unfolding zero_host_bits
byte_at-zero_host_bits f r i [] n h = absurd (omega arith)
byte_at-zero_host_bits f r i (x ∷ b) zero h = ground arith
byte_at-zero_host_bits f r i (x ∷ b) (suc n) h =
    ground (arith, byte_at-zero_host_bits f r (i + 1) b n (omega arith))

-- Clearing keeps the first `p` bits of an address and makes the others 0.
pub bit_at-zero_host_bits :
    (p : ℕ) (b : Bytes) (i : ℕ)
    → IsBytes b
    → i < 8 * length b
    → bit_at (zero_host_bits (p / 8) (p % 8) 0 b) i ≡ (if ltb i p then bit_at b i else 0)
bit_at-zero_host_bits p b i h hi = ground (
  arith,
  byte_at-zero_host_bits (p / 8) (p % 8) 0 b (i / 8) (omega arith),
  bit_of-bit_and (p % 8) (byte_at b (i / 8)) (i % 8) (omega arith) (byte_at_lt b (i / 8) h)
      (omega arith),
)

-- An address of the size of its family, with the whole of it for a prefix.
pub whole-IsNormal :
    (type : IpType) (b : Bytes)
    → length b ≡ size_of type
    → IsBytes b
    → IsNormal (whole type b (8 * size_of type))
whole-IsNormal type b size bytes = record {
  size = size;
  bytes = bytes;
  fits = omega arith;
  clear = λ i lo hi. absurd (omega arith);
}

cleared-IsNormal :
    (type : IpType) (b : Bytes) (p : ℕ)
    → length b ≡ size_of type
    → IsBytes b
    → p ≤ 8 * size_of type
    → IsNormal (whole type (zero_host_bits (p / 8) (p % 8) 0 b) p)
cleared-IsNormal type b p size bytes fits = record {
  size = length-zero_host_bits (p / 8) (p % 8) 0 b ∙ size;
  bytes = zero_host_bits-IsBytes (p / 8) (p % 8) 0 b (omega arith) bytes;
  fits = fits;
  clear = λ i lo hi. ground (arith, bit_at-zero_host_bits p b i bytes (omega arith));
}

in_range_le : (most : ℕ) (p : Signed) → in_range most p ≡ true → p.1 ≤ most
unfolding in_range
in_range_le most (minus, v) h = ground arith

masked_range-IsNormal :
    (type : IpType) (b : Bytes) (p : Signed)
    → length b ≡ size_of type
    → IsBytes b
    → IfSome IsNormal (masked_range type b (8 * size_of type) p)
unfolding masked_range
masked_range-IsNormal type b p size bytes = elim (Bool-cases (in_range (8 * size_of type) p)) [
  | inl fits ↦
      rw fits (cleared-IsNormal type b p.1 size bytes (in_range_le (8 * size_of type) p fits))
  | inr over ↦ rw over tt
]

module _ (net : Pton) where
  open net use {pton4_size, pton6_size, pton4_bytes, pton6_bytes}

  parse_single-IsNormal : (s : Bytes) → IfSome IsNormal (parse_single net s)
  unfolding parse_single parse_ipv4 parse_ipv6
  parse_single-IsNormal s = elim (Option-cases (net.pton4 (c_str s))) [
    | inr (b, four) ↦
        rw (four, parse_single) (whole-IsNormal ipv4 b (pton4_size _ b four) (pton4_bytes _ b four))
    | inl not_four ↦ elim (Option-cases (net.pton6 (c_str s))) [
      | inr (b, six) ↦
          rw (not_four, six, parse_single)
            (whole-IsNormal ipv6 b (pton6_size _ b six) (pton6_bytes _ b six))
      | inl not_six ↦ rw (not_four, not_six, parse_single) tt
    ]
  ]

  parse_with_prefix-IsNormal :
      (s : Bytes) (p : Signed) → IfSome IsNormal (parse_with_prefix net s p)
  unfolding parse_with_prefix parse_ipv4 parse_ipv6
  parse_with_prefix-IsNormal s p = elim (Option-cases (net.pton4 (c_str s))) [
    | inr (b, four) ↦
        rw (four, parse_with_prefix)
          (masked_range-IsNormal ipv4 b p (pton4_size _ b four) (pton4_bytes _ b four))
    | inl not_four ↦ elim (Option-cases (net.pton6 (c_str s))) [
      | inr (b, six) ↦
          rw (not_four, six, parse_with_prefix)
            (masked_range-IsNormal ipv6 b p (pton6_size _ b six) (pton6_bytes _ b six))
      | inl not_six ↦ rw (not_four, not_six, parse_with_prefix) tt
    ]
  ]

  -- A range that `parse_cidr` accepts has an address of its family's size, a prefix that fits it,
  -- and only zeros behind the prefix.
  pub parse_cidr-IsNormal :
      (s : Bytes) (range : CidrRange) → parse_cidr net s ≡ some range → IsNormal range
  unfolding parse_cidr
  parse_cidr-IsNormal s range e = IfSome_some IsNormal (normal (split_slash s) refl) e
    where
      normal :
          (split : Option (Bytes × Bytes))
          → split_slash s ≡ split
          → IfSome IsNormal (parse_cidr net s)
      normal none h = rw (h, parse_cidr) (parse_single-IsNormal s)
      normal (some (front, back)) h = elim (Option-cases (stoi back)) [
        | inl bad ↦ rw (h, bad, parse_cidr) tt
        | inr (p, good) ↦ rw (h, good, parse_cidr) (parse_with_prefix-IsNormal front p)
      ]

-- Clearing the host bits changes nothing for the addresses that match.
pub SamePrefix-zero_host_bits :
    (p : ℕ) (a b : Bytes)
    → IsBytes b
    → p ≤ 8 * length b
    → SamePrefix p a (zero_host_bits (p / 8) (p % 8) 0 b) ↔ SamePrefix p a b
SamePrefix-zero_host_bits p a b h fits =
    (λ same i hi. same i hi ∙ kept i hi, λ same i hi. same i hi ∙ sym (kept i hi))
  where
    kept : (i : ℕ) → i < p → bit_at (zero_host_bits (p / 8) (p % 8) 0 b) i ≡ bit_at b i
    kept i hi = ground (arith, bit_at-zero_host_bits p b i h (omega arith))
