-- ===== src/Metrics/Latency.antt =====
-- The latencies of an operation, in milliseconds, and their percentiles. `std::sort` is insertion sort
-- here: equal numbers are the same.
use protogate.Base.{ℕ, ◌-◌, ◌*◌, ◌/◌, List, [], ◌∷◌, ◌++◌, length, drop, get_or, if◌then◌else◌, ltb}
use protogate.RateLimiter.Double.{Double}

abbrev pub max_latency_samples : ℕ
max_latency_samples = 1000

pub record LatencyStats (W : Type 0) : Type 0 where
  pub p50_ms : W
  pub p95_ms : W
  pub p99_ms : W
  pub mean_ms : W
  pub max_ms : W

module _ {W : Type 0} (d : Double W) where
  open d use {of_size, add, div, lt}

  abbrev pub latency_ms : ℕ → W
  latency_ms microseconds = div (of_size microseconds) (of_size 1000)

  -- `record_latency` on the samples of the operation: the oldest go beyond 1000.
  unfoldable pub push_sample : W → List W → List W
  push_sample x samples =
      let pushed = samples ++ x ∷ [] in
      if ltb max_latency_samples (length pushed)
      then drop (length pushed - max_latency_samples) pushed
      else pushed

  unfoldable pub insert_sorted : W → List W → List W
  insert_sorted x [] = x ∷ []
  insert_sorted x (y ∷ ys) = if lt y x then y ∷ insert_sorted x ys else x ∷ y ∷ ys

  unfoldable pub sort : List W → List W
  sort [] = []
  sort (x ∷ xs) = insert_sorted x (sort xs)

  unfoldable pub sum_from : W → List W → W
  sum_from sum [] = sum
  sum_from sum (x ∷ xs) = sum_from (add sum x) xs

  abbrev pub no_stats : LatencyStats W
  no_stats = record {
    p50_ms = of_size 0;
    p95_ms = of_size 0;
    p99_ms = of_size 0;
    mean_ms = of_size 0;
    max_ms = of_size 0;
  }

  -- The sample at this per cent of the sorted ones.
  abbrev pub percentile : ℕ → List W → W
  percentile percent sorted = get_or sorted (length sorted * percent / 100) (of_size 0)

  unfoldable pub calculate_latency_stats : List W → LatencyStats W
  calculate_latency_stats [] = no_stats
  calculate_latency_stats (x ∷ xs) =
      let sorted = sort (x ∷ xs) in
      record {
        p50_ms = percentile 50 sorted;
        p95_ms = percentile 95 sorted;
        p99_ms = percentile 99 sorted;
        mean_ms = div (sum_from (of_size 0) (x ∷ xs)) (of_size (length (x ∷ xs)));
        max_ms = get_or sorted (length sorted - 1) (of_size 0);
      }
