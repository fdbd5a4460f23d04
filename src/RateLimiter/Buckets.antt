-- ===== src/RateLimiter/Buckets.antt =====
-- `RateLimiter` of src/security/rate_limiter.h, rate_limiter.cpp.
use protogate.Base.{
  ℕ, ◌-◌, ◌/◌, Bool, true, false, [], none, some, ◌==◌, if◌then◌else◌, Text, Map, find, insert,
  erase,
}
use protogate.RateLimiter.Double.{Double}

pub record Bucket (W : Type 0) : Type 0 where
  pub tokens : W
  pub last_refill : ℕ

pub record RateLimiter (W : Type 0) : Type 0 where
  pub requests_per_second : W
  pub burst_capacity : ℕ
  pub buckets : Map (Bucket W)

module _ {W : Type 0} (d : Double W) where
  open d use {of_size, add, sub, mul, div, lt, le}

  -- The constructor, with the defaults for a rate that is not positive and for no burst.
  unfoldable pub new_limiter : W → ℕ → RateLimiter W
  new_limiter requests_per_second burst_capacity = record {
    requests_per_second =
        if le requests_per_second (of_size 0) then of_size 100 else requests_per_second;
    burst_capacity = if burst_capacity == 0 then 200 else burst_capacity;
    buckets = [];
  }

  -- `std::min`
  abbrev pub double_min : W → W → W
  double_min x y = if lt y x then y else x

  abbrev pub tokens_to_add : ℕ → RateLimiter W → Bucket W → W
  tokens_to_add now l bucket =
      mul (div (of_size ((now - bucket.last_refill) / 1000)) (of_size 1000000))
        l.requests_per_second

  unfoldable pub refill_tokens : ℕ → RateLimiter W → Bucket W → Bucket W
  refill_tokens now l bucket =
      if lt (of_size 0) (tokens_to_add now l bucket)
      then record {
        tokens =
            double_min (add bucket.tokens (tokens_to_add now l bucket)) (of_size l.burst_capacity);
        last_refill = now;
      }
      else bucket

  -- The bucket of a key; a new one is full.
  unfoldable pub bucket_of : ℕ → Text → RateLimiter W → Bucket W
  bucket_of made key l = elim (find key l.buckets) [
    | some bucket ↦ bucket
    | none ↦ record { tokens = of_size l.burst_capacity; last_refill = made }
  ]

  -- `made` is the time at which a new bucket is made, `now` that of the refill.
  unfoldable pub allow_request : ℕ → ℕ → Text → RateLimiter W → RateLimiter W × Bool
  allow_request made now key l =
      let bucket = refill_tokens now l (bucket_of made key l) in
      if le (of_size 1) bucket.tokens
      then (
        record l {
          buckets = insert key (record bucket { tokens = sub bucket.tokens (of_size 1) }) l.buckets;
        },
        true,
      )
      else (record l { buckets = insert key bucket l.buckets }, false)

  unfoldable pub check_limit : ℕ → Text → RateLimiter W → Bool
  check_limit now key l = elim (find key l.buckets) [
    | none ↦ true
    | some bucket ↦ le (of_size 1) (refill_tokens now l bucket).tokens
  ]

  unfoldable pub get_tokens : ℕ → Text → RateLimiter W → W
  get_tokens now key l = elim (find key l.buckets) [
    | none ↦ of_size l.burst_capacity
    | some bucket ↦ (refill_tokens now l bucket).tokens
  ]

  unfoldable pub reset_key : Text → RateLimiter W → RateLimiter W
  reset_key key l = record l { buckets = erase key l.buckets }

  unfoldable pub clear_limits : RateLimiter W → RateLimiter W
  clear_limits l = record l { buckets = [] }
