-- ===== src/Allowlist/Examples.antt =====
-- The allowlist's theorems at concrete lists. `raw_pton` reads a text of four characters as an IPv4
-- address and one of sixteen as an IPv6 address, in place of the platform's parser.
use protogate.Allowlist.Access.{TextCovers, from_cidr_list-is_allowed_iff}
use protogate.Allowlist.Lists.{from_cidr_list}
use protogate.Allowlist.Parse.{parse_cidr}
use protogate.Allowlist.{
  ipv4, CidrRange, Pton, zero_host_bits, parse_ipv4, parse_ipv6, c_str, is_allowed,
}
use protogate.Base.{
  ℕ, ◌%◌, ◌≡◌, ◌↔◌, refl, true, [], ◌∷◌, arith, length, Option, none, some, Any, ◌==◌,
  if◌then◌else◌, codes, ap, suc,
}
use protogate.Wire.Integers.{IsBytes}
use protogate.Wire.{Bytes}

abbrev pub wrap : Bytes → Bytes
wrap [] = []
wrap (c ∷ s) = c % 256 ∷ wrap s

abbrev pub sized : ℕ → Bytes → Option Bytes
sized n s = if length s == n then some (wrap s) else none

length-wrap : (s : Bytes) → length (wrap s) ≡ length s
length-wrap [] = refl
length-wrap (c ∷ s) = ap suc (length-wrap s)

wrap-IsBytes : (s : Bytes) → IsBytes (wrap s)
wrap-IsBytes [] = tt
wrap-IsBytes (c ∷ s) = (omega arith, wrap-IsBytes s)

pub length-sized : (n : ℕ) (s b : Bytes) → sized n s ≡ some b → length b ≡ n
length-sized n s b e = ground (arith, length-wrap s)

pub sized-IsBytes : (n : ℕ) (s b : Bytes) → sized n s ≡ some b → IsBytes b
sized-IsBytes n s b e = ground (arith, wrap-IsBytes s)

abbrev pub raw_pton : Pton
raw_pton = record {
  pton4 = sized 4;
  pton6 = sized 16;
  pton4_size = length-sized 4;
  pton6_size = length-sized 16;
  pton4_bytes = sized-IsBytes 4;
  pton6_bytes = sized-IsBytes 16;
}

-- The address of "abc4" behind 20 bits, and "abcd".
abbrev net20 : CidrRange
net20 = record { type = ipv4; network = 97 ∷ 98 ∷ 96 ∷ 0 ∷ []; prefix_length = 20 }

abbrev abcd : Bytes
abcd = codes "abcd"

parse_net20 : parse_cidr raw_pton (codes "abc4/20") ≡ some net20
unfolding parse_cidr parse_ipv4 parse_ipv6 c_str zero_host_bits
parse_net20 = refl

single_address :
    parse_cidr raw_pton abcd ≡ some (record net20 { network = abcd; prefix_length = 32 })
unfolding parse_cidr parse_ipv4 parse_ipv6 c_str zero_host_bits
single_address = refl

parse_too_long : parse_cidr raw_pton (codes "abc4/33") ≡ none
unfolding parse_cidr parse_ipv4 parse_ipv6 c_str zero_host_bits
parse_too_long = refl

from_two_texts :
    from_cidr_list raw_pton (codes "wxyz" ∷ codes "abc4/20" ∷ [])
    ≡ some (record net20 { network = codes "wxyz"; prefix_length = 32 } ∷ net20 ∷ [])
unfolding from_cidr_list parse_cidr parse_ipv4 parse_ipv6 c_str zero_host_bits
from_two_texts = refl

from_cidr_list-is_allowed_iff_example :
    (is_allowed raw_pton
        (record net20 { network = codes "wxyz"; prefix_length = 32 } ∷ net20 ∷ [])
        abcd
      ≡ true)
    ↔ Any (TextCovers raw_pton ipv4 abcd) (codes "wxyz" ∷ codes "abc4/20" ∷ [])
unfolding c_str
from_cidr_list-is_allowed_iff_example =
    from_cidr_list-is_allowed_iff raw_pton ipv4 (codes "wxyz") (codes "abc4/20" ∷ [])
      (record net20 { network = codes "wxyz"; prefix_length = 32 } ∷ net20 ∷ []) abcd abcd
      from_two_texts refl
