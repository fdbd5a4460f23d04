-- ===== src/Allowlist/Parse.antt =====
-- `parse_cidr` (src/security/ip_allowlist.cpp): the text of a range, and the network address with its
-- host bits cleared.
use protogate.Allowlist.{
  IpType, ipv4, ipv6, CidrRange, Pton, zero_host_bits, parse_ipv4, parse_ipv6,
}
use protogate.Base.{
  ℕ, ◌+◌, ◌-◌, ◌*◌, ◌/◌, ◌%◌, ◌^◌, Bool, true, false, not, ◌&&◌, ◌||◌, [], ◌∷◌, Option, none, some,
  ltb, leb, ◌==◌, if◌then◌else◌,
}
use protogate.Wire.{Byte, Bytes}

-- What `std::stoi` returns: whether there was a minus sign, and the digits' value.
abbrev pub Signed : Type 0
Signed = Bool × ℕ

is_space : Byte → Bool
is_space c = c == 32 || (leb 9 c && leb c 13)

is_digit : Byte → Bool
is_digit c = leb 48 c && leb c 57

skip_spaces : Bytes → Bytes
skip_spaces [] = []
skip_spaces (c ∷ s) = let rest = skip_spaces s in if is_space c then rest else c ∷ s

read_digits : ℕ → Bytes → ℕ
read_digits acc [] = acc
read_digits acc (c ∷ s) =
    let more = read_digits (acc * 10 + (c - 48)) s in if is_digit c then more else acc

-- The digits of an `int`. No digit and a value out of range both throw.
read_number : Bool → Bytes → Option Signed
read_number minus [] = none
read_number minus (c ∷ s) =
    let v = read_digits 0 (c ∷ s) in
    if is_digit c && leb v (if minus then 2 ^ 31 else 2 ^ 31 - 1) then some (minus, v) else none

read_sign : Bytes → Option Signed
read_sign [] = none
read_sign (c ∷ s) =
    if c == b'-'
    then read_number true s
    else if c == b'+'
    then read_number false s
    else read_number false (c ∷ s)

pub stoi : Bytes → Option Signed
stoi s = read_sign (skip_spaces s)

-- Not `prefix_length < 0 || prefix_length > most`.
unfoldable pub in_range : ℕ → Signed → Bool
in_range most (minus, v) = not (minus && ltb 0 v) && leb v most

-- The text before and behind the first slash.
unfoldable pub split_slash : Bytes → Option (Bytes × Bytes)
split_slash [] = none
split_slash (c ∷ s) =
    if c == b'/'
    then some ([], s)
    else elim (split_slash s) [ none ↦ none | some (front, back) ↦ some (c ∷ front, back) ]

abbrev pub whole : IpType → Bytes → ℕ → CidrRange
whole type b p = record { type = type; network = b; prefix_length = p }

-- A range of the given family with its host bits cleared, if the prefix length is in range.
unfoldable pub masked_range : IpType → Bytes → ℕ → Signed → Option CidrRange
masked_range type b most p =
    if in_range most p then some (whole type (zero_host_bits (p.1 / 8) (p.1 % 8) 0 b) p.1) else none

module _ (net : Pton) where
  unfoldable pub parse_single : Bytes → Option CidrRange
  parse_single s = elim (parse_ipv4 net s) [
    | some b ↦ some (whole ipv4 b 32)
    | none ↦ elim (parse_ipv6 net s) [ some b ↦ some (whole ipv6 b 128) | none ↦ none ]
  ]

  unfoldable pub parse_with_prefix : Bytes → Signed → Option CidrRange
  parse_with_prefix ip_part p = elim (parse_ipv4 net ip_part) [
    | some b ↦ masked_range ipv4 b 32 p
    | none ↦ elim (parse_ipv6 net ip_part) [ some b ↦ masked_range ipv6 b 128 p | none ↦ none ]
  ]

  unfoldable pub parse_cidr : Bytes → Option CidrRange
  unfolding split_slash stoi parse_single parse_with_prefix masked_range in_range read_sign
      skip_spaces read_number read_digits is_digit is_space
  parse_cidr s = elim (split_slash s) [
    | none ↦ parse_single s
    | some (ip_part, prefix_part) ↦ elim (stoi prefix_part) [
      | none ↦ none
      | some p ↦ parse_with_prefix ip_part p
    ]
  ]
