-- ===== src/RateLimiter/Double.antt =====
-- What the rate limiter does with a `double`, and the laws of IEEE 754 that its theorems use: they hold
-- of all its values, also of infinities and NaN, up to 2 ^ 53.
use protogate.Base.{ℕ, suc, ◌+◌, ◌-◌, ◌*◌, ◌/◌, ◌^◌, ◌≤◌, ◌≡◌, Bool, true, false, arith, ltb, leb}

pub record Double (W : Type 0) : Type 0 where
  pub of_size : ℕ → W
  pub add : W → W → W
  pub sub : W → W → W
  pub mul : W → W → W
  pub div : W → W → W
  pub lt : W → W → Bool
  pub le : W → W → Bool

-- The integers up to 2 ^ 53 are exact; rounding is monotone.
pub record IsDouble {W : Type 0} (d : Double W) : Type 0 where
  pub lt_irrefl : (x : W) → d.lt x x ≡ false
  pub sub_one : (n : ℕ) → suc n ≤ 2 ^ 53 → d.sub (d.of_size (suc n)) (d.of_size 1) ≡ d.of_size n
  pub one_le : (n : ℕ) → n ≤ 2 ^ 53 → d.le (d.of_size 1) (d.of_size n) ≡ ltb 0 n
  pub sub_falls : (limit x : W) → d.lt limit x ≡ false → d.lt limit (d.sub x (d.of_size 1)) ≡ false
  pub add_grows :
      (x y : W)
      → d.le (d.of_size 1) x ≡ true
      → d.lt (d.of_size 0) y ≡ true
      → d.le (d.of_size 1) (d.add x y) ≡ true
  pub nothing : (x y : W) → d.lt (d.of_size 0) (d.mul (d.div (d.of_size 0) x) y) ≡ false

-- Numbers without fractions meet the laws.
abbrev pub whole : Double ℕ
whole = record {
  of_size = λ n. n;
  add = λ x y. x + y;
  sub = λ x y. x - y;
  mul = λ x y. x * y;
  div = λ x y. x / y;
  lt = ltb;
  le = leb;
}

pub whole-IsDouble : IsDouble whole
whole-IsDouble = record {
  lt_irrefl = λ x. ground arith;
  sub_one = λ n h. omega arith;
  one_le = λ n h. ground arith;
  sub_falls = λ limit x h. ground (arith, h);
  add_grows = λ x y h k. ground (arith, h, k);
  nothing = λ x y. ground arith;
}
