-- ===== src/RateLimiter/Examples.antt =====
-- Token buckets over numbers without fractions.
use protogate.Base.{
  ℕ, ◌≡◌, ◌≤◌, refl, arith, false, true, [], ◌∷◌, List, Bool, All, ◌==◌, if◌then◌else◌, min, Text,
  codes, text_eq,
}
use protogate.RateLimiter.Buckets.{
  RateLimiter, new_limiter, allow_request, check_limit, get_tokens, bucket_of,
}
use protogate.RateLimiter.Burst.{check_limit-allow_request}
use protogate.RateLimiter.Double.{whole, whole-IsDouble}
use protogate.RateLimiter.Tunnel.{
  TunnelRateLimiter, set_tunnel_limit, tunnel_allowed, tunnel_allowed-set_tunnel_limit,
}

abbrev key : Text
key = codes "db"

abbrev limiter : RateLimiter ℕ
limiter = record {
  requests_per_second = 2;
  burst_capacity = 3;
  buckets = (key, record { tokens = 1; last_refill = 0 }) ∷ [];
}

check_limit-allow_request_example :
    check_limit whole 9 key limiter ≡ (allow_request whole 9 9 key limiter).1
check_limit-allow_request_example =
    check_limit-allow_request whole whole-IsDouble 9 9 key limiter (omega arith) (omega arith)

abbrev tunnels : TunnelRateLimiter ℕ
tunnels = record {
  default_requests_per_second = 100;
  default_burst_capacity = 200;
  limiters = (key, limiter) ∷ [];
}

tunnel_allowed-set_tunnel_limit_example :
    tunnel_allowed whole whole-IsDouble 9 key 7 (set_tunnel_limit whole key 5 4 tunnels)
    ≡ min 7 (if 4 == 0 then 200 else 4)
unfolding protogate.Base.find
tunnel_allowed-set_tunnel_limit_example =
    tunnel_allowed-set_tunnel_limit whole whole-IsDouble 9 7 key 5 4 tunnels (refl, tt)
      (omega arith)

-- One request is left; a second later there are two more.
refused_then_refilled :
    ((allow_request whole 9 9 key limiter).1 ≡ true)
    × ((allow_request whole 9 9 key (allow_request whole 9 9 key limiter).0).1 ≡ false)
    × (get_tokens whole 1000000009 key (allow_request whole 9 9 key limiter).0 ≡ 2)
unfolding allow_request bucket_of get_tokens protogate.RateLimiter.Buckets.refill_tokens
    protogate.Base.find protogate.Base.insert text_eq
refused_then_refilled = (refl, refl, refl)
