-- ===== src/Metrics/Counters.antt =====
-- `Metrics` of src/observability/metrics.h, metrics.cpp.
use protogate.Base.{
  ℕ, ◌+◌, ◌-◌, ◌/◌, ◌%◌, ◌^◌, Bool, List, [], Option, none, some, length, ltb, if◌then◌else◌, Text,
  Map, find, insert, erase, codes,
}
use protogate.Metrics.Latency.{
  LatencyStats, latency_ms, push_sample, no_stats, calculate_latency_stats,
}
use protogate.RateLimiter.Double.{Double}

-- What is kept for HTTP, and again for TCP: the times at which what is active has started, and counters.
pub record Traffic : Type 0 where
  pub active : Map ℕ
  pub total : ℕ
  pub errors : ℕ
  pub bytes_sent : ℕ
  pub bytes_received : ℕ

abbrev pub no_traffic : Traffic
no_traffic = record { active = []; total = 0; errors = 0; bytes_sent = 0; bytes_received = 0 }

pub record Metrics (W : Type 0) : Type 0 where
  pub active_tunnels : Map ℕ
  pub http : Traffic
  pub tcp : Traffic
  pub latency_samples : Map (List W)
  pub start_time : ℕ

pub record ConnectionStats : Type 0 where
  pub tunnels : ℕ
  pub http_connections : ℕ
  pub tcp_connections : ℕ
  pub total_http_requests : ℕ
  pub total_tcp_connections : ℕ
  pub http_errors : ℕ
  pub tcp_errors : ℕ

pub record ThroughputStats (W : Type 0) : Type 0 where
  pub sent : ℕ
  pub received : ℕ
  pub total_bytes : ℕ
  pub bytes_per_second : W

-- `http_request_start` and `tcp_connection_start` on what they keep.
unfoldable pub begin : ℕ → Text → Traffic → Traffic
begin now id t = record t { active = insert id now t.active; total = (t.total + 1) % 2 ^ 64 }

-- The part of `http_request_complete` and `tcp_connection_complete` that is theirs.
unfoldable pub complete : Text → Bool → Traffic → Traffic
complete id error t = record t {
  active = erase id t.active;
  errors = if error then (t.errors + 1) % 2 ^ 64 else t.errors;
}

unfoldable pub add_bytes : ℕ → ℕ → Traffic → Traffic
add_bytes sent received t = record t {
  bytes_sent = (t.bytes_sent + sent) % 2 ^ 64;
  bytes_received = (t.bytes_received + received) % 2 ^ 64;
}

module _ {W : Type 0} (d : Double W) where
  unfoldable pub new_metrics : ℕ → Metrics W
  new_metrics now = record {
    active_tunnels = [];
    http = no_traffic;
    tcp = no_traffic;
    latency_samples = [];
    start_time = now;
  }

  unfoldable pub tunnel_connected : ℕ → Text → Metrics W → Metrics W
  tunnel_connected now id m = record m { active_tunnels = insert id now m.active_tunnels }

  unfoldable pub tunnel_disconnected : Text → Metrics W → Metrics W
  tunnel_disconnected id m = record m { active_tunnels = erase id m.active_tunnels }

  unfoldable pub get_active_tunnel_count : Metrics W → ℕ
  get_active_tunnel_count m = length m.active_tunnels % 2 ^ 32

  -- `latency_samples_[operation]`
  abbrev pub samples_of : Text → Map (List W) → List W
  samples_of operation samples = elim (find operation samples) [ none ↦ [] | some xs ↦ xs ]

  unfoldable pub record_latency : Text → ℕ → Metrics W → Metrics W
  record_latency operation microseconds m = record m {
    latency_samples =
        insert operation
          (push_sample d (latency_ms d microseconds) (samples_of operation m.latency_samples))
          m.latency_samples;
  }

  -- The latency is recorded if the start is known and not the clock's zero.
  unfoldable pub record_since : Text → Option ℕ → ℕ → Metrics W → Metrics W
  record_since operation none now m = m
  record_since operation (some started) now m =
      if ltb 0 started then record_latency operation ((now - started) / 1000) m else m

  unfoldable pub http_request_start : ℕ → Text → Metrics W → Metrics W
  http_request_start now id m = record m { http = begin now id m.http }

  unfoldable pub http_request_complete : ℕ → Text → Bool → Metrics W → Metrics W
  http_request_complete now id error m =
      record_since (codes "http_request") (find id m.http.active) now
        (record m { http = complete id error m.http })

  unfoldable pub http_bytes_transferred : ℕ → ℕ → Metrics W → Metrics W
  http_bytes_transferred sent received m = record m { http = add_bytes sent received m.http }

  unfoldable pub tcp_connection_start : ℕ → Text → Metrics W → Metrics W
  tcp_connection_start now id m = record m { tcp = begin now id m.tcp }

  unfoldable pub tcp_connection_complete : ℕ → Text → Bool → Metrics W → Metrics W
  tcp_connection_complete now id error m =
      record_since (codes "tcp_connection") (find id m.tcp.active) now
        (record m { tcp = complete id error m.tcp })

  unfoldable pub tcp_bytes_transferred : ℕ → ℕ → Metrics W → Metrics W
  tcp_bytes_transferred sent received m = record m { tcp = add_bytes sent received m.tcp }

  unfoldable pub get_connection_stats : Metrics W → ConnectionStats
  get_connection_stats m = record {
    tunnels = get_active_tunnel_count m;
    http_connections = length m.http.active % 2 ^ 32;
    tcp_connections = length m.tcp.active % 2 ^ 32;
    total_http_requests = m.http.total;
    total_tcp_connections = m.tcp.total;
    http_errors = m.http.errors;
    tcp_errors = m.tcp.errors;
  }

  unfoldable pub get_throughput_stats : ℕ → Metrics W → ThroughputStats W
  get_throughput_stats now m =
      let bytes_sent : ℕ = (m.http.bytes_sent + m.tcp.bytes_sent) % 2 ^ 64 in
      let bytes_received : ℕ = (m.http.bytes_received + m.tcp.bytes_received) % 2 ^ 64 in
      let total : ℕ = (bytes_sent + bytes_received) % 2 ^ 64 in
      let elapsed : ℕ = (now - m.start_time) / 1000000000 in
      record {
        sent = bytes_sent;
        received = bytes_received;
        total_bytes = total;
        bytes_per_second =
            if ltb 0 elapsed then d.div (d.of_size total) (d.of_size elapsed) else d.of_size 0;
      }

  unfoldable pub get_latency_stats : Text → Metrics W → LatencyStats W
  get_latency_stats operation m = elim (find operation m.latency_samples) [
    | none ↦ no_stats d
    | some samples ↦ calculate_latency_stats d samples
  ]

  -- `reset`, at this time.
  unfoldable pub reset_metrics : ℕ → Metrics W → Metrics W
  reset_metrics now m = new_metrics now
