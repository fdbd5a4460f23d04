-- ===== src/Allowlist/Bits.antt =====
-- An address as its bits, the highest bit of the first byte first, and what the masks of
-- `IPAllowlist` keep of a byte.
use Prim.Native.Nat.{bit_and}
use protogate.Allowlist.{mask_of}
use protogate.Base.{
  ℕ, zero, suc, ◌+◌, ◌-◌, ◌*◌, ◌/◌, ◌%◌, ◌^◌, ◌<◌, ◌≡◌, refl, Bool, true, ◌&&◌, ◌==◌, ==_iff, arith,
  ltb, ltb→lt, if◌then◌else◌, ap,
}
use protogate.Wire.{Byte, Bytes, byte_at}

abbrev pub bit_of : Byte → ℕ → ℕ
bit_of b j = b / 2 ^ (7 - j) % 2

-- Bit `i` of an address.
abbrev pub bit_at : Bytes → ℕ → ℕ
bit_at a i = bit_of (byte_at a (i / 8)) (i % 8)

-- Two addresses agree in their first `p` bits.
abbrev pub SamePrefix : ℕ → Bytes → Bytes → Type 0
SamePrefix p a b = (i : ℕ) → i < p → bit_at a i ≡ bit_at b i

-- The test holds of each number under the bound.
every : (ℕ → Bool) → ℕ → Bool
every test zero = true
every test (suc bound) = every test bound && test bound

every_lem : (test : ℕ → Bool) (bound k : ℕ) → every test bound ≡ true → k < bound → test k ≡ true
unfolding every
every_lem test zero k all below = absurd (omega arith)
every_lem test (suc bound) k all below = ground (arith, every_lem test bound k)

-- A mask keeps the first `r` bits of a byte and clears the others.
abbrev masks_bits : ℕ → Byte → ℕ → Bool
masks_bits r x j = bit_of (bit_and x (mask_of r)) j == (if ltb j r then bit_of x j else 0)

abbrev masks_byte : ℕ → Byte → Bool
masks_byte r x = every (masks_bits r x) 8

mask_table : every (λ r. every (masks_byte r) 256) 8 ≡ true
unfolding every
mask_table = refl

pub bit_of-bit_and :
    (r : ℕ) (x : Byte) (j : ℕ)
    → r < 8
    → x < 256
    → j < 8
    → bit_of (bit_and x (mask_of r)) j ≡ (if ltb j r then bit_of x j else 0)
bit_of-bit_and r x j hr hx hj =
    let row = every_lem (λ r. every (masks_byte r) 256) 8 r mask_table hr in
    let cell = every_lem (masks_byte r) 256 x row hx in
    (==_iff _ _).0 (every_lem (masks_bits r x) 8 j cell hj)

abbrev stays_byte : ℕ → Byte → Bool
stays_byte r x = ltb (bit_and x (mask_of r)) 256

range_table : every (λ r. every (stays_byte r) 256) 8 ≡ true
unfolding every
range_table = refl

pub bit_and-mask_of_lt : (r : ℕ) (x : Byte) → r < 8 → x < 256 → bit_and x (mask_of r) < 256
bit_and-mask_of_lt r x hr hx =
    let row = every_lem (λ r. every (stays_byte r) 256) 8 r range_table hr in
    ltb→lt _ _ (every_lem (stays_byte r) 256 x row hx)

-- Two bytes with the same eight bits are the same.
pub eq_of_bits :
    (x y : Byte) → x < 256 → y < 256 → ((j : ℕ) → j < 8 → bit_of x j ≡ bit_of y j) → x ≡ y
eq_of_bits x y hx hy h = omega (
  arith,
  h 0 (omega arith),
  h 1 (omega arith),
  h 2 (omega arith),
  h 3 (omega arith),
  h 4 (omega arith),
  h 5 (omega arith),
  h 6 (omega arith),
  h 7 (omega arith),
)

-- Two bytes agree under a mask exactly if they agree in the bits that it keeps.
pub same_masked :
    (r : ℕ) (x y : Byte)
    → r < 8
    → x < 256
    → y < 256
    → ((j : ℕ) → j < r → bit_of x j ≡ bit_of y j)
    → bit_and x (mask_of r) ≡ bit_and y (mask_of r)
same_masked r x y hr hx hy h =
    eq_of_bits _ _ (bit_and-mask_of_lt r x hr hx) (bit_and-mask_of_lt r y hr hy)
      λ j hj. ground (arith, bit_of-bit_and r x j hr hx hj, bit_of-bit_and r y j hr hy hj, h j)

pub same_kept :
    (r : ℕ) (x y : Byte) (j : ℕ)
    → r < 8
    → x < 256
    → y < 256
    → j < r
    → bit_and x (mask_of r) ≡ bit_and y (mask_of r)
    → bit_of x j ≡ bit_of y j
same_kept r x y j hr hx hy hj e = ground (
  arith,
  bit_of-bit_and r x j hr hx (omega arith),
  bit_of-bit_and r y j hr hy (omega arith),
  ap (λ (b : ℕ). bit_of b j) e,
)

-- Bit `8 * k + j` is bit `j` of byte `k`.
pub bit_at_byte : (a : Bytes) (k j : ℕ) → j < 8 → bit_at a (8 * k + j) ≡ bit_of (byte_at a k) j
bit_at_byte a k j h =
    let e : (8 * k + j) / 8 ≡ k = omega arith in
    let d : (8 * k + j) % 8 ≡ j = omega arith in rw (e, d)
