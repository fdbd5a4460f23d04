-- ===== src/RateLimiter.antt =====
-- src/security/rate_limiter.h, rate_limiter.cpp: token buckets by keys, and one such limiter for each
-- tunnel. A `double` is a parameter, RateLimiter.Double. Times are ticks of the steady clock,
-- nanoseconds, and do not fall; a mutex makes each method one step.
pub mod Double
pub mod Buckets
pub mod Burst
pub mod Tunnel
pub mod Examples
