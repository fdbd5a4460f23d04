-- ===== src/RateLimiter/Burst.antt =====
-- What the buckets of src/security/rate_limiter.cpp allow.
use protogate.Base.{
  ℕ, zero, suc, ◌+◌, ◌-◌, ◌/◌, ◌^◌, ◌≤◌, ◌≡◌, ◌∙◌, true, false, arith, [], ◌∷◌, none, some, min,
  if◌then◌else◌, Text, Map, find, insert, find-insert, text_eq, text_eq_refl, All, Bool-cases,
  Option-cases, inl, inr,
}
use protogate.RateLimiter.Buckets.{
  Bucket, RateLimiter, tokens_to_add, refill_tokens, bucket_of, allow_request, check_limit,
  get_tokens,
}
use protogate.RateLimiter.Double.{Double, IsDouble}

module _ {W : Type 0} (d : Double W) (laws : IsDouble d) where
  open d use {of_size, lt, le, sub}

  -- No more tokens than the capacity.
  abbrev pub IsFilled : ℕ → Bucket W → Type 0
  IsFilled capacity bucket = lt (of_size capacity) bucket.tokens ≡ false

  abbrev pub IsWithin : RateLimiter W → Type 0
  IsWithin l = All (λ pair. IsFilled l.burst_capacity pair.1) l.buckets

  refill-IsFilled :
      (now : ℕ) (l : RateLimiter W) (bucket : Bucket W)
      → IsFilled l.burst_capacity bucket
      → IsFilled l.burst_capacity (refill_tokens d now l bucket)
  unfolding refill_tokens
  refill-IsFilled now l bucket h = ground (arith, h, laws.lt_irrefl (of_size l.burst_capacity))

  find-IsFilled :
      (capacity : ℕ) (key : Text) (m : Map (Bucket W)) (bucket : Bucket W)
      → All (λ pair. IsFilled capacity pair.1) m
      → find key m ≡ some bucket
      → IsFilled capacity bucket
  unfolding find
  find-IsFilled capacity key [] bucket h e = absurd (ground (arith, e))
  find-IsFilled capacity key ((j, b) ∷ m) bucket (p, h) e = elim (Bool-cases (text_eq j key)) [
    | inl here ↦ ground (arith, e, here, p)
    | inr there ↦ find-IsFilled capacity key m bucket h (ground (arith, e, there))
  ]

  insert-IsFilled :
      (capacity : ℕ) (key : Text) (bucket : Bucket W) (m : Map (Bucket W))
      → IsFilled capacity bucket
      → All (λ pair. IsFilled capacity pair.1) m
      → All (λ pair. IsFilled capacity pair.1) (insert key bucket m)
  unfolding insert
  insert-IsFilled capacity key bucket [] p h = (p, tt)
  insert-IsFilled capacity key bucket ((j, b) ∷ m) p (q, h) = elim (Bool-cases (text_eq j key)) [
    | inl here ↦ rw here (p, h)
    | inr there ↦ rw there (q, insert-IsFilled capacity key bucket m p h)
  ]

  bucket_of-IsFilled :
      (made : ℕ) (key : Text) (l : RateLimiter W)
      → IsWithin l
      → IsFilled l.burst_capacity (bucket_of d made key l)
  unfolding bucket_of
  bucket_of-IsFilled made key l h = elim (Option-cases (find key l.buckets)) [
    | inl gone ↦ rw (gone, bucket_of) (laws.lt_irrefl (of_size l.burst_capacity))
    | inr (bucket, found) ↦
        rw (found, bucket_of) (find-IsFilled l.burst_capacity key l.buckets bucket h found)
  ]

  -- No request leaves a bucket with more tokens than the capacity.
  pub allow_request-IsWithin :
      (made now : ℕ) (key : Text) (l : RateLimiter W)
      → IsWithin l
      → IsWithin (allow_request d made now key l).0
  unfolding allow_request
  allow_request-IsWithin made now key l h =
      let bucket = refill_tokens d now l (bucket_of d made key l) in
      let filled : IsFilled l.burst_capacity bucket =
        refill-IsFilled now l (bucket_of d made key l) (bucket_of-IsFilled made key l h) in
      elim (Bool-cases (le (of_size 1) bucket.tokens)) [
        | inl full ↦ rw full (
            insert-IsFilled l.burst_capacity key
              (record bucket { tokens = sub bucket.tokens (of_size 1) }) l.buckets
              (laws.sub_falls (of_size l.burst_capacity) bucket.tokens filled) h)
        | inr empty ↦ rw empty (insert-IsFilled l.burst_capacity key bucket l.buckets filled h)
      ]

  check_limit-cases :
      (capacity : ℕ) → 1 ≤ capacity → capacity ≤ 2 ^ 53 → le (of_size 1) (of_size capacity) ≡ true
  check_limit-cases capacity some_room exact = laws.one_le capacity exact ∙ ground arith

  refill-full :
      (now : ℕ) (l : RateLimiter W) (bucket : Bucket W)
      → le (of_size 1) bucket.tokens ≡ true
      → le (of_size 1) (of_size l.burst_capacity) ≡ true
      → le (of_size 1) (refill_tokens d now l bucket).tokens ≡ true
  unfolding refill_tokens
  refill-full now l bucket h k =
      ground (arith, h, k, laws.add_grows bucket.tokens (tokens_to_add d now l bucket))

  -- `check_limit` answers what `allow_request` would at the same time, for a burst of 1 to 2 ^ 53.
  pub check_limit-allow_request :
      (made now : ℕ) (key : Text) (l : RateLimiter W)
      → 1 ≤ l.burst_capacity
      → l.burst_capacity ≤ 2 ^ 53
      → check_limit d now key l ≡ (allow_request d made now key l).1
  unfolding check_limit allow_request bucket_of
  check_limit-allow_request made now key l some_room exact =
      let full = check_limit-cases l.burst_capacity some_room exact in
      let fresh : Bucket W = record { tokens = of_size l.burst_capacity; last_refill = made } in
      elim (Option-cases (find key l.buckets)) [
        | inl gone ↦ ground (arith, gone, refill-full now l fresh full full)
        | inr (bucket, found) ↦ ground (arith, found)
      ]

  -- The buckets behind a request.
  allow_request-insert :
      (made now : ℕ) (key : Text) (l : RateLimiter W)
      → (bucket : Bucket W) × ((allow_request d made now key l).0
          ≡ record l { buckets = insert key bucket l.buckets })
  unfolding allow_request
  allow_request-insert made now key l =
      let bucket = refill_tokens d now l (bucket_of d made key l) in
      elim (Bool-cases (le (of_size 1) bucket.tokens)) [
        | inl full ↦
            (record bucket { tokens = sub bucket.tokens (of_size 1) }, ground (arith, full))
        | inr empty ↦ (bucket, ground (arith, empty))
      ]

  -- A request for one key changes nothing for another.
  pub get_tokens-allow_request :
      (made now later : ℕ) (key other : Text) (l : RateLimiter W)
      → text_eq key other ≡ false
      → get_tokens d later other (allow_request d made now key l).0 ≡ get_tokens d later other l
  unfolding get_tokens refill_tokens
  get_tokens-allow_request made now later key other l apart =
      let (bucket, same) = allow_request-insert made now key l in
      rw same (ground (arith, find-insert key other bucket l.buckets, apart))

  -- No time, no tokens.
  refill-same :
      (now : ℕ) (l : RateLimiter W) (tokens : W)
      → refill_tokens d now l (record { tokens = tokens; last_refill = now })
        ≡ record { tokens = tokens; last_refill = now }
  unfolding refill_tokens
  refill-same now l tokens =
      let no_time : (now - now) / 1000 ≡ 0 = omega arith in
      ground (arith, no_time, laws.nothing (of_size 1000000) l.requests_per_second)

  -- A bucket of so many tokens, filled at this time.
  abbrev holding : ℕ → ℕ → Bucket W
  holding now n = record { tokens = of_size n; last_refill = now }

  allow_request-holding :
      (now n : ℕ) (key : Text) (l : RateLimiter W)
      → suc n ≤ 2 ^ 53
      → bucket_of d now key l ≡ holding now (suc n)
      → allow_request d now now key l
        ≡ (record l { buckets = insert key (holding now n) l.buckets }, true)
  unfolding allow_request
  allow_request-holding now n key l exact e = rw e (
      ground (
        arith,
        refill-same now l (of_size (suc n)),
        laws.one_le (suc n) exact,
        laws.sub_one n exact,
      ))

  allow_request-empty :
      (now : ℕ) (key : Text) (l : RateLimiter W)
      → bucket_of d now key l ≡ holding now 0
      → allow_request d now now key l
        ≡ (record l { buckets = insert key (holding now 0) l.buckets }, false)
  unfolding allow_request
  allow_request-empty now key l e =
      rw e (ground (arith, refill-same now l (of_size 0), laws.one_le 0))

  bucket_of-insert :
      (now : ℕ) (key : Text) (bucket : Bucket W) (l : RateLimiter W)
      → bucket_of d now key (record l { buckets = insert key bucket l.buckets }) ≡ bucket
  unfolding bucket_of
  bucket_of-insert now key bucket l =
      ground (arith, find-insert key key bucket l.buckets, text_eq_refl key)

  -- How many of so many requests at one instant are allowed.
  unfoldable pub allowed : ℕ → Text → ℕ → RateLimiter W → ℕ
  allowed now key zero l = 0
  allowed now key (suc k) l =
      let (next, granted) = allow_request d now now key l in
      (if granted then 1 else 0) + allowed now key k next

  allowed-holding :
      (now n k : ℕ) (key : Text) (l : RateLimiter W)
      → n ≤ 2 ^ 53
      → bucket_of d now key l ≡ holding now n
      → allowed now key k l ≡ min k n
  unfolding allowed
  allowed-holding now n zero key l exact e = omega arith
  allowed-holding now zero (suc k) key l exact e =
      let next : RateLimiter W = record l { buckets = insert key (holding now 0) l.buckets } in
      let later = allowed-holding now 0 k key next exact (bucket_of-insert now key _ l) in
      rw (allow_request-empty now key l e) (omega (arith, later))
  allowed-holding now (suc n) (suc k) key l exact e =
      let next : RateLimiter W = record l { buckets = insert key (holding now n) l.buckets } in
      let later = allowed-holding now n k key next (omega arith) (bucket_of-insert now key _ l) in
      rw (allow_request-holding now n key l exact e) (omega (arith, later))

  -- Of the requests for a new key at one instant, exactly as many are allowed as the burst's capacity
  -- says, if this is at most 2 ^ 53, or all of them if they are fewer.
  pub allowed-fresh :
      (now k : ℕ) (key : Text) (l : RateLimiter W)
      → l.burst_capacity ≤ 2 ^ 53
      → find key l.buckets ≡ none
      → allowed now key k l ≡ min k l.burst_capacity
  allowed-fresh now k key l exact fresh =
      allowed-holding now l.burst_capacity k key l exact (unfold bucket_of in ground (arith, fresh))
