-- ===== src/Metrics/Percentiles.antt =====
-- The order of the percentiles.
use protogate.Base.{
  ℕ, zero, suc, ◌-◌, ◌≤◌, ◌<◌, ◌≡◌, refl, subst, arith, true, false, List, [], ◌∷◌, length, get_or,
  All, Bool-cases, inl, inr,
}
use protogate.Metrics.Latency.{latency_ms, insert_sorted, sort, calculate_latency_stats}
use protogate.RateLimiter.Double.{Double}

-- What comparisons do among the values that are numbers, and that latencies are.
pub record IsOrdered {W : Type 0} (d : Double W) (IsNumber : W → Type 0) : Type 0 where
  pub latency : (n : ℕ) → IsNumber (latency_ms d n)
  pub irrefl : (x : W) → d.lt x x ≡ false
  pub asym : (x y : W) → d.lt x y ≡ true → d.lt y x ≡ false
  pub not_lt_trans :
      (x y z : W) → IsNumber y → d.lt y x ≡ false → d.lt z y ≡ false → d.lt z x ≡ false

module _ {W : Type 0} (d : Double W) (IsNumber : W → Type 0) (laws : IsOrdered d IsNumber) where
  open d use {of_size, lt}

  -- Each is at most all that follow.
  abbrev IsSorted : List W → Type 0
  IsSorted [] = Unit
  IsSorted (x ∷ xs) = All (λ y. lt y x ≡ false) xs × IsSorted xs

  All-insert_sorted :
      (P : W → Type 0) (x : W) (ys : List W) → P x → All P ys → All P (insert_sorted d x ys)
  unfolding insert_sorted
  All-insert_sorted P x [] p h = (p, tt)
  All-insert_sorted P x (y ∷ ys) p (q, h) = elim (Bool-cases (lt y x)) [
    | inl below ↦ rw below (q, All-insert_sorted P x ys p h)
    | inr above ↦ rw above (p, (q, h))
  ]

  All-sort : (P : W → Type 0) (xs : List W) → All P xs → All P (sort d xs)
  unfolding sort
  All-sort P [] h = tt
  All-sort P (x ∷ xs) (p, h) = All-insert_sorted P x (sort d xs) p (All-sort P xs h)

  not_lt_trans-All :
      (x y : W) (zs : List W)
      → IsNumber y
      → lt y x ≡ false
      → All (λ z. lt z y ≡ false) zs
      → All (λ z. lt z x ≡ false) zs
  not_lt_trans-All x y [] n e h = tt
  not_lt_trans-All x y (z ∷ zs) n e (p, h) =
      (laws.not_lt_trans x y z n e p, not_lt_trans-All x y zs n e h)

  insert_sorted-IsSorted :
      (x : W) (ys : List W) → All IsNumber ys → IsSorted ys → IsSorted (insert_sorted d x ys)
  unfolding insert_sorted
  insert_sorted-IsSorted x [] n h = (tt, tt)
  insert_sorted-IsSorted x (y ∷ ys) (n, ns) (p, h) = elim (Bool-cases (lt y x)) [
    | inl below ↦ rw below (
      All-insert_sorted (λ z. lt z y ≡ false) x ys (laws.asym y x below) p,
      insert_sorted-IsSorted x ys ns h,
    )
    | inr above ↦ rw above ((above, not_lt_trans-All x y ys n above p), (p, h))
  ]

  sort-IsSorted : (xs : List W) → All IsNumber xs → IsSorted (sort d xs)
  unfolding sort
  sort-IsSorted [] n = tt
  sort-IsSorted (x ∷ xs) (n, ns) =
      insert_sorted-IsSorted x (sort d xs) (All-sort IsNumber xs ns) (sort-IsSorted xs ns)

  All-get_or :
      (P : W → Type 0) (xs : List W) (i : ℕ) (e : W) → i < length xs → All P xs → P (get_or xs i e)
  All-get_or P [] i e h a = absurd (omega arith)
  All-get_or P (x ∷ xs) zero e h (p, a) = p
  All-get_or P (x ∷ xs) (suc i) e h (p, a) = All-get_or P xs i e (omega arith) a

  get_or-IsSorted :
      (xs : List W) (i j : ℕ) (e : W)
      → IsSorted xs
      → i ≤ j
      → j < length xs
      → lt (get_or xs j e) (get_or xs i e) ≡ false
  get_or-IsSorted [] i j e h le bound = absurd (omega arith)
  get_or-IsSorted (x ∷ xs) zero zero e h le bound = laws.irrefl x
  get_or-IsSorted (x ∷ xs) zero (suc j) e (p, h) le bound =
      All-get_or (λ y. lt y x ≡ false) xs j e (omega arith) p
  get_or-IsSorted (x ∷ xs) (suc i) zero e h le bound = absurd (omega arith)
  get_or-IsSorted (x ∷ xs) (suc i) (suc j) e (p, h) le bound =
      get_or-IsSorted xs i j e h (omega arith) (omega arith)

  length-insert_sorted : (x : W) (ys : List W) → length (insert_sorted d x ys) ≡ suc (length ys)
  unfolding insert_sorted
  length-insert_sorted x [] = refl
  length-insert_sorted x (y ∷ ys) = ground (arith, length-insert_sorted x ys)

  All-insert_sorted_inv :
      (P : W → Type 0) (x : W) (ys : List W) → All P (insert_sorted d x ys) → P x × All P ys
  unfolding insert_sorted
  All-insert_sorted_inv P x [] h = h
  All-insert_sorted_inv P x (y ∷ ys) h = elim (Bool-cases (lt y x)) [
    | inl below ↦
        let (q, rest) = rw (below, insert_sorted) at h in
        let (p, all) = All-insert_sorted_inv P x ys rest in (p, (q, all))
    | inr above ↦ rw (above, insert_sorted) at h
  ]

  All-sort_inv : (P : W → Type 0) (xs : List W) → All P (sort d xs) → All P xs
  unfolding sort
  All-sort_inv P [] h = tt
  All-sort_inv P (x ∷ xs) h =
      let (p, rest) = All-insert_sorted_inv P x (sort d xs) h in (p, All-sort_inv P xs rest)

  length-sort : (xs : List W) → length (sort d xs) ≡ length xs
  unfolding sort
  length-sort [] = refl
  length-sort (x ∷ xs) = omega (arith, length-insert_sorted x (sort d xs), length-sort xs)

  last-IsSorted :
      (x : W) (xs : List W) (e : W)
      → IsSorted (x ∷ xs)
      → All (λ y. lt (get_or (x ∷ xs) (length xs) e) y ≡ false) (x ∷ xs)
  last-IsSorted x [] e h = (laws.irrefl x, tt)
  last-IsSorted x (y ∷ ys) e (p, h) = (
    All-get_or (λ z. lt z x ≡ false) (y ∷ ys) (length ys) e (omega arith) p,
    last-IsSorted y ys e h,
  )

  max-IsSorted :
      (xs : List W) (e : W) → IsSorted xs → All (λ y. lt (get_or xs (length xs - 1) e) y ≡ false) xs
  max-IsSorted [] e h = tt
  max-IsSorted (x ∷ xs) e h =
      let last : length xs ≡ suc (length xs) - 1 = omega arith in
      subst (λ i. All (λ y. lt (get_or (x ∷ xs) i e) y ≡ false) (x ∷ xs)) last
        (last-IsSorted x xs e h)

  -- Of at least one sample, all of them numbers, the percentiles are in order: the 50th is not above the
  -- 95th, this not above the 99th, this not above the maximum, and no sample is above the maximum.
  pub calculate_latency_stats-ordered :
      (x : W) (xs : List W)
      → All IsNumber (x ∷ xs)
      → let s = calculate_latency_stats d (x ∷ xs) in
        (lt s.p95_ms s.p50_ms ≡ false)
        × (lt s.p99_ms s.p95_ms ≡ false)
        × (lt s.max_ms s.p99_ms ≡ false)
        × All (λ y. lt s.max_ms y ≡ false) (x ∷ xs)
  unfolding calculate_latency_stats
  calculate_latency_stats-ordered x xs n =
      let sorted = sort d (x ∷ xs) in
      let h = sort-IsSorted (x ∷ xs) n in
      let count = length-sort (x ∷ xs) in
      (
        get_or-IsSorted sorted _ _ (of_size 0) h (omega arith) (omega (arith, count)),
        get_or-IsSorted sorted _ _ (of_size 0) h (omega arith) (omega (arith, count)),
        get_or-IsSorted sorted _ _ (of_size 0) h (omega (arith, count)) (omega (arith, count)),
        All-sort_inv (λ y. lt (get_or sorted (length sorted - 1) (of_size 0)) y ≡ false) (x ∷ xs)
            (max-IsSorted sorted (of_size 0) h),
      )
