-- ===== src/Allowlist.antt =====
-- src/security/ip_allowlist.h and .cpp: address ranges and the list of those that may connect.
-- An address is its bytes, a text the list of its bytes. `inet_pton` is a parameter.
pub mod Bits
pub mod Match
pub mod Parse
pub mod Normal
pub mod Lists
pub mod Access
pub mod Examples
use Prim.Native.Nat.{bit_and}
use protogate.Base.{
  ℕ, zero, suc, ◌+◌, ◌-◌, ◌*◌, ◌/◌, ◌%◌, ◌^◌, ◌≡◌, Bool, true, false, not, ◌&&◌, ◌||◌, List, [],
  ◌∷◌, ◌++◌, Option, none, some, length, ltb, leb, ◌==◌, if◌then◌else◌,
}
use protogate.Wire.{Bytes, byte_at}
use protogate.Wire.Integers.{IsBytes}

pub data IpType : Type 0 where
  ipv4 ipv6 : IpType

pub record CidrRange : Type 0 where
  pub type : IpType
  pub network : Bytes
  pub prefix_length : ℕ

abbrev pub IpAllowlist : Type 0
IpAllowlist = List CidrRange

-- `inet_pton` for the two families: the bytes of an address, in network order.
pub record Pton : Type 0 where
  pub pton4 : Bytes → Option Bytes
  pub pton6 : Bytes → Option Bytes
  pub pton4_size : (s b : Bytes) → pton4 s ≡ some b → length b ≡ 4
  pub pton6_size : (s b : Bytes) → pton6 s ≡ some b → length b ≡ 16
  pub pton4_bytes : (s b : Bytes) → pton4 s ≡ some b → IsBytes b
  pub pton6_bytes : (s b : Bytes) → pton6 s ≡ some b → IsBytes b

-- `uint8_t mask = 0xFF << (8 - remaining_bits)`
abbrev pub mask_of : ℕ → ℕ
mask_of remaining_bits = 255 * 2 ^ (8 - remaining_bits) % 256

-- `for (i = 0; i < full_bytes; i++) if (ip_bytes[i] != range.network[i]) return false;`
unfoldable pub equal_below : ℕ → Bytes → Bytes → Bool
equal_below zero ip network = true
equal_below (suc n) ip network = equal_below n ip network && byte_at ip n == byte_at network n

unfoldable pub matches_cidr : Bytes → CidrRange → Bool
matches_cidr ip_bytes range =
    let full_bytes = range.prefix_length / 8 in
    let remaining_bits = range.prefix_length % 8 in
    let mask = mask_of remaining_bits in
    if not (length ip_bytes == length range.network)
    then false
    else if not (equal_below full_bytes ip_bytes range.network)
    then false
    else if ltb 0 remaining_bits && ltb full_bytes (length ip_bytes)
    then bit_and (byte_at ip_bytes full_bytes) mask
      == bit_and (byte_at range.network full_bytes) mask
    else true

-- The loop that zeroes the host bits, from index `i` on.
unfoldable pub zero_host_bits : ℕ → ℕ → ℕ → Bytes → Bytes
zero_host_bits full_bytes remaining_bits i [] = []
zero_host_bits full_bytes remaining_bits i (b ∷ rest) =
    (if ltb i full_bytes
      then b
      else if i == full_bytes && ltb 0 remaining_bits
      then bit_and b (mask_of remaining_bits)
      else 0)
    ∷ zero_host_bits full_bytes remaining_bits (i + 1) rest

is_type : IpType → IpType → Bool
is_type ipv4 ipv4 = true
is_type ipv6 ipv6 = true
is_type _ _ = false

-- `for (range : ranges_) if (range.type == type && matches_cidr(bytes, range)) return true;`
unfoldable pub any_match : IpType → Bytes → IpAllowlist → Bool
unfolding is_type
any_match type bytes [] = false
any_match type bytes (range ∷ ranges) =
    (is_type range.type type && matches_cidr bytes range) || any_match type bytes ranges

-- `c_str()`, as a C function reads it.
unfoldable pub c_str : Bytes → Bytes
c_str [] = []
c_str (c ∷ s) = let rest = c_str s in if c == 0 then [] else c ∷ rest

module _ (net : Pton) where
  unfoldable pub parse_ipv4 : Bytes → Option Bytes
  parse_ipv4 s = net.pton4 (c_str s)

  unfoldable pub parse_ipv6 : Bytes → Option Bytes
  parse_ipv6 s = net.pton6 (c_str s)

  unfoldable pub add_ip : IpAllowlist → Bytes → IpAllowlist × Bool
  add_ip ranges s = elim (parse_ipv4 s) [
    | some b ↦ (ranges ++ (record { type = ipv4; network = b; prefix_length = 32 } ∷ []), true)
    | none ↦ elim (parse_ipv6 s) [
      | some b ↦ (ranges ++ (record { type = ipv6; network = b; prefix_length = 128 } ∷ []), true)
      | none ↦ (ranges, false)
    ]
  ]

  -- The body behind the test for an empty list.
  check_ranges : IpAllowlist → Bytes → Bool
  check_ranges ranges s = elim (parse_ipv4 s) [
    | some b ↦ any_match ipv4 b ranges
    | none ↦ elim (parse_ipv6 s) [ some b ↦ any_match ipv6 b ranges | none ↦ false ]
  ]

  unfoldable pub is_allowed : IpAllowlist → Bytes → Bool
  unfolding check_ranges
  is_allowed [] s = true
  is_allowed (range ∷ ranges) s = check_ranges (range ∷ ranges) s
