-- ===== src/Allowlist/Match.antt =====
-- `matches_cidr` (src/security/ip_allowlist.cpp) and the bits of an address.
use Prim.Native.Nat.{bit_and}
use protogate.Allowlist.Bits.{
  bit_of, bit_at, SamePrefix, eq_of_bits, same_masked, same_kept, bit_at_byte,
}
use protogate.Allowlist.{CidrRange, mask_of, equal_below, matches_cidr}
use protogate.Base.{
  ℕ, zero, suc, ◌+◌, ◌*◌, ◌/◌, ◌%◌, ◌<◌, ◌≤◌, ◌≡◌, ◌↔◌, ap, sym, ◌∙◌, true, arith, length, dec_lt,
}
use protogate.Wire.Integers.{IsBytes, byte_at_lt}
use protogate.Wire.{Bytes, byte_at}

equal_below_sound :
    (n : ℕ) (a b : Bytes) (i : ℕ) → equal_below n a b ≡ true → i < n → byte_at a i ≡ byte_at b i
unfolding equal_below
equal_below_sound zero a b i h hi = elim hi [ ]
equal_below_sound (suc n) a b i h hi = ground (arith, equal_below_sound n a b i)

equal_below_complete :
    (n : ℕ) (a b : Bytes) → ((i : ℕ) → i < n → byte_at a i ≡ byte_at b i) → equal_below n a b ≡ true
unfolding equal_below
equal_below_complete zero a b h = ground arith
equal_below_complete (suc n) a b h =
    ground (arith, equal_below_complete n a b (λ i hi. h i (omega arith)), h n (omega arith))

-- The two tests of the code.
module _ (ip : Bytes) (range : CidrRange) (sizes : length ip ≡ length range.network) where
  abbrev full : ℕ
  full = range.prefix_length / 8

  abbrev rest : ℕ
  rest = range.prefix_length % 8

  abbrev Masked : Type 0
  Masked =
      bit_and (byte_at ip full) (mask_of rest) ≡ bit_and (byte_at range.network full) (mask_of rest)

  matches-parts :
      matches_cidr ip range ≡ true
      → (equal_below full ip range.network ≡ true) × (0 < rest → full < length ip → Masked)
  unfolding matches_cidr
  matches-parts e = (ground arith, λ h k. ground arith)

  parts-matches :
      equal_below full ip range.network ≡ true
      → (0 < rest → full < length ip → Masked)
      → matches_cidr ip range ≡ true
  unfolding matches_cidr
  parts-matches e m = ground arith

-- An address matches a range of its own size exactly if the two agree in their first
-- `prefix_length` bits.
pub matches_cidr_iff :
    (ip : Bytes) (range : CidrRange)
    → IsBytes ip
    → IsBytes range.network
    → length ip ≡ length range.network
    → range.prefix_length ≤ 8 * length range.network
    → (matches_cidr ip range ≡ true) ↔ SamePrefix range.prefix_length ip range.network
matches_cidr_iff ip range hip hnet sizes fits = (sound, complete)
  where
    k : ℕ
    k = range.prefix_length / 8

    r : ℕ
    r = range.prefix_length % 8

    in_full :
        (i : ℕ)
        → byte_at ip (i / 8) ≡ byte_at range.network (i / 8)
        → bit_at ip i ≡ bit_at range.network i
    in_full i e = ap (λ (b : ℕ). bit_of b (i % 8)) e

    in_rest :
        (i : ℕ)
        → i < range.prefix_length
        → k ≤ i / 8
        → bit_and (byte_at ip k) (mask_of r) ≡ bit_and (byte_at range.network k) (mask_of r)
        → bit_at ip i ≡ bit_at range.network i
    in_rest i hi hk e =
        let last : i / 8 ≡ k = omega arith in
        rw last (
          same_kept r (byte_at ip k) (byte_at range.network k) (i % 8) (omega arith)
            (byte_at_lt ip k hip) (byte_at_lt range.network k hnet) (omega arith) e)

    sound : matches_cidr ip range ≡ true → SamePrefix range.prefix_length ip range.network
    sound m i hi =
        let (equal, masked) = matches-parts ip range sizes m in
        elim (dec_lt (i / 8) k) [
          | yes h ↦ in_full i (equal_below_sound k ip range.network (i / 8) equal h)
          | no h ↦ in_rest i hi (omega arith) (masked (omega arith) (omega arith))
        ]

    same_bit :
        SamePrefix range.prefix_length ip range.network
        → (n j : ℕ) → j < 8
        → 8 * n + j < range.prefix_length
        → bit_of (byte_at ip n) j ≡ bit_of (byte_at range.network n) j
    same_bit h n j hj hn =
        sym (bit_at_byte ip n j hj) ∙ h (8 * n + j) hn ∙ bit_at_byte range.network n j hj

    complete : SamePrefix range.prefix_length ip range.network → matches_cidr ip range ≡ true
    complete h =
        parts-matches ip range sizes
          (equal_below_complete k ip range.network λ n hn.
            eq_of_bits _ _ (byte_at_lt ip n hip) (byte_at_lt range.network n hnet)
              (λ j hj. same_bit h n j hj (omega arith)))
          (λ _ _.
            same_masked r _ _ (omega arith) (byte_at_lt ip k hip) (byte_at_lt range.network k hnet)
              (λ j hj. same_bit h k j (omega arith) (omega arith)))
