-- ===== src/Metrics/Examples.antt =====
-- Metrics over numbers without fractions.
use protogate.Base.{◌≤◌, arith, true, false, List, [], ◌∷◌, length, codes}
use protogate.Metrics.Counters.{new_metrics, get_latency_stats, samples_of}
use protogate.Metrics.Latency.{max_latency_samples}
use protogate.Metrics.Percentiles.{IsOrdered}
use protogate.Metrics.Window.{
  Call, recorded, http_started, http_completed, calls, IsOrderedStats, get_latency_stats-calls,
}
use protogate.RateLimiter.Double.{whole}

whole-IsOrdered : IsOrdered whole (λ n. Unit {0})
whole-IsOrdered = record {
  latency = λ n. tt;
  irrefl = λ x. ground arith;
  asym = λ x y h. ground (arith, h);
  not_lt_trans = λ x y z n h k. ground (arith, h, k);
}

abbrev operations : List Call
operations =
    http_started 1 (codes "a")
    ∷ http_started 2000 (codes "b")
    ∷ http_completed 7000001 (codes "b") false
    ∷ recorded (codes "http_request") 12
    ∷ http_completed 9000001 (codes "a") true
    ∷ []

get_latency_stats-calls_example :
    (length (
        samples_of whole
          (codes "http_request")
          (calls whole operations (new_metrics whole 0)).latency_samples)
      ≤ max_latency_samples)
    × IsOrderedStats whole (
        get_latency_stats whole
          (codes "http_request")
          (calls whole operations (new_metrics whole 0)))
get_latency_stats-calls_example =
    get_latency_stats-calls whole (λ n. Unit {0}) whole-IsOrdered 0 operations
      (codes "http_request")
