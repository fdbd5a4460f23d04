-- ===== src/Metrics.antt =====
-- src/observability/metrics.h, metrics.cpp: the counters of the server, the latencies that it keeps, and
-- their statistics. The texts that export them are not modelled. A `double` is the parameter of
-- RateLimiter.Double; times are ticks of the steady clock, nanoseconds; a counter of 64 bits wraps.
pub mod Counters
pub mod Latency
pub mod Percentiles
pub mod Window
pub mod Examples
