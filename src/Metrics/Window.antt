-- ===== src/Metrics/Window.antt =====
-- The samples and the statistics after any calls of the metrics' methods.
use protogate.Base.{
  ℕ, ◌-◌, ◌/◌, ◌≤◌, ◌≡◌, sym, subst, arith, Bool, false, List, [], ◌∷◌, ◌++◌, Option, none, some,
  length, length-drop, ltb, Text, Map, find, insert, text_eq, All, All-append, All-drop, Bool-cases,
  Option-cases, inl, inr,
}
use protogate.Metrics.Counters.{
  Metrics, new_metrics, tunnel_connected, tunnel_disconnected, record_latency, record_since,
  samples_of, http_request_start, http_request_complete, http_bytes_transferred,
  tcp_connection_start, tcp_connection_complete, tcp_bytes_transferred, get_latency_stats,
  reset_metrics,
}
use protogate.Metrics.Latency.{
  LatencyStats, push_sample, max_latency_samples, calculate_latency_stats,
}
use protogate.Metrics.Percentiles.{IsOrdered, calculate_latency_stats-ordered}
use protogate.RateLimiter.Double.{Double}

-- The methods that change the metrics, with the time where they read the clock.
pub data Call : Type 0 where
  connected disconnected : ℕ → Text → Call
  http_started tcp_started : ℕ → Text → Call
  http_completed tcp_completed : ℕ → Text → Bool → Call
  http_bytes tcp_bytes : ℕ → ℕ → Call
  recorded : Text → ℕ → Call
  was_reset : ℕ → Call

module _ {W : Type 0} (d : Double W) where
  unfoldable pub call : Call → Metrics W → Metrics W
  call (connected now id) m = tunnel_connected d now id m
  call (disconnected now id) m = tunnel_disconnected d id m
  call (http_started now id) m = http_request_start d now id m
  call (tcp_started now id) m = tcp_connection_start d now id m
  call (http_completed now id error) m = http_request_complete d now id error m
  call (tcp_completed now id error) m = tcp_connection_complete d now id error m
  call (http_bytes sent received) m = http_bytes_transferred d sent received m
  call (tcp_bytes sent received) m = tcp_bytes_transferred d sent received m
  call (recorded operation microseconds) m = record_latency d operation microseconds m
  call (was_reset now) m = reset_metrics d now m

  unfoldable pub calls : List Call → Metrics W → Metrics W
  calls [] m = m
  calls (c ∷ cs) m = calls cs (call c m)

  -- In order, with nothing above the maximum.
  abbrev pub IsOrderedStats : LatencyStats W → Type 0
  IsOrderedStats s =
      (d.lt s.p95_ms s.p50_ms ≡ false)
      × (d.lt s.p99_ms s.p95_ms ≡ false)
      × (d.lt s.max_ms s.p99_ms ≡ false)

module _ {W : Type 0} (d : Double W) (IsNumber : W → Type 0) (laws : IsOrdered d IsNumber) where
  -- At most 1000 samples, all of them numbers.
  abbrev IsWindow : List W → Type 0
  IsWindow xs = (length xs ≤ 1000) × All IsNumber xs

  abbrev AllWindows : Map (List W) → Type 0
  AllWindows m = All (λ pair. IsWindow pair.1) m

  push_sample-IsWindow :
      (x : W) (xs : List W) → IsNumber x → All IsNumber xs → IsWindow (push_sample d x xs)
  unfolding push_sample
  push_sample-IsWindow x xs p h =
      let pushed = xs ++ x ∷ [] in
      let numbers = All-append IsNumber xs (x ∷ []) h (p, tt) in
      elim (Bool-cases (ltb 1000 (length pushed))) [
        | inl long ↦ rw long (
          omega (arith, length-drop (length pushed - 1000) pushed),
          All-drop IsNumber (length pushed - 1000) pushed numbers,
        )
        | inr short ↦ rw short (ground (arith, short), numbers)
      ]

  find-AllWindows :
      (key : Text) (m : Map (List W)) (xs : List W)
      → AllWindows m
      → find key m ≡ some xs
      → IsWindow xs
  unfolding find
  find-AllWindows key [] xs h e = absurd (ground (arith, e))
  find-AllWindows key ((j, ys) ∷ m) xs (p, h) e = elim (Bool-cases (text_eq j key)) [
    | inl here ↦ subst IsWindow (ground (arith, e, here)) p
    | inr there ↦ find-AllWindows key m xs h (ground (arith, e, there))
  ]

  insert-AllWindows :
      (key : Text) (xs : List W) (m : Map (List W))
      → IsWindow xs
      → AllWindows m
      → AllWindows (insert key xs m)
  unfolding insert
  insert-AllWindows key xs [] p h = (p, tt)
  insert-AllWindows key xs ((j, ys) ∷ m) p (q, h) = elim (Bool-cases (text_eq j key)) [
    | inl here ↦ rw here (p, h)
    | inr there ↦ rw there (q, insert-AllWindows key xs m p h)
  ]

  samples_of-numbers :
      (key : Text) (m : Map (List W)) → AllWindows m → All IsNumber (samples_of d key m)
  samples_of-numbers key m h = elim (Option-cases (find key m)) [
    | inl gone ↦
        let empty : samples_of d key m ≡ [] = ground (arith, gone) in
        subst (All IsNumber) (sym empty) tt
    | inr (xs, found) ↦
        let same : samples_of d key m ≡ xs = ground (arith, found) in
        subst (All IsNumber) (sym same) (find-AllWindows key m xs h found).1
  ]

  record_latency-AllWindows :
      (operation : Text) (microseconds : ℕ) (m : Metrics W)
      → AllWindows m.latency_samples
      → AllWindows (record_latency d operation microseconds m).latency_samples
  unfolding record_latency
  record_latency-AllWindows operation microseconds m h =
      insert-AllWindows operation _ m.latency_samples
        (push_sample-IsWindow _ _ (laws.latency microseconds)
          (samples_of-numbers operation m.latency_samples h))
        h

  record_since-AllWindows :
      (operation : Text) (started : Option ℕ) (now : ℕ) (m : Metrics W)
      → AllWindows m.latency_samples
      → AllWindows (record_since d operation started now m).latency_samples
  unfolding record_since
  record_since-AllWindows operation none now m h = h
  record_since-AllWindows operation (some started) now m h = elim (Bool-cases (ltb 0 started)) [
    | inl known ↦ rw known (record_latency-AllWindows operation ((now - started) / 1000) m h)
    | inr unknown ↦ rw unknown h
  ]

  call-AllWindows :
      (c : Call) (m : Metrics W)
      → AllWindows m.latency_samples
      → AllWindows (call d c m).latency_samples
  unfolding call tunnel_connected tunnel_disconnected http_request_start tcp_connection_start
      http_request_complete tcp_connection_complete http_bytes_transferred tcp_bytes_transferred
      reset_metrics new_metrics
  call-AllWindows (http_completed now id error) m h =
      record_since-AllWindows _ (find id m.http.active) now _ h
  call-AllWindows (tcp_completed now id error) m h =
      record_since-AllWindows _ (find id m.tcp.active) now _ h
  call-AllWindows (recorded operation microseconds) m h =
      record_latency-AllWindows operation microseconds m h
  call-AllWindows (was_reset now) m h = tt
  call-AllWindows _ m h = h

  calls-AllWindows :
      (cs : List Call) (m : Metrics W)
      → AllWindows m.latency_samples
      → AllWindows (calls d cs m).latency_samples
  unfolding calls
  calls-AllWindows [] m h = h
  calls-AllWindows (c ∷ cs) m h = calls-AllWindows cs (call d c m) (call-AllWindows c m h)

  stats-IsOrderedStats :
      (xs : List W) → All IsNumber xs → IsOrderedStats d (calculate_latency_stats d xs)
  stats-IsOrderedStats [] h =
      unfold calculate_latency_stats in
      (laws.irrefl (d.of_size 0), laws.irrefl (d.of_size 0), laws.irrefl (d.of_size 0))
  stats-IsOrderedStats (x ∷ xs) h =
      let (low, middle, high, rest) = calculate_latency_stats-ordered d IsNumber laws x xs h in
      (low, middle, high)

  find-short :
      (key : Text) (m : Map (List W))
      → AllWindows m
      → length (samples_of d key m) ≤ max_latency_samples
  find-short key m h = elim (Option-cases (find key m)) [
    | inl gone ↦
        let empty : samples_of d key m ≡ [] = ground (arith, gone) in rw empty (omega arith)
    | inr (xs, found) ↦
        let same : samples_of d key m ≡ xs = ground (arith, found) in
        rw same (find-AllWindows key m xs h found).0
  ]

  get_latency_stats-IsOrderedStats :
      (operation : Text) (m : Metrics W)
      → AllWindows m.latency_samples
      → IsOrderedStats d (get_latency_stats d operation m)
  unfolding get_latency_stats
  get_latency_stats-IsOrderedStats operation m h =
      elim (Option-cases (find operation m.latency_samples)) [
        | inl gone ↦
            let same : calculate_latency_stats d [] ≡ get_latency_stats d operation m =
              unfold calculate_latency_stats in ground (arith, gone) in
            subst (IsOrderedStats d) same (stats-IsOrderedStats [] tt)
        | inr (xs, found) ↦
            let same : calculate_latency_stats d xs ≡ get_latency_stats d operation m =
              ground (arith, found) in
            subst (IsOrderedStats d) same
              (stats-IsOrderedStats xs (find-AllWindows operation m.latency_samples xs h found).1)
      ]

  -- If comparisons order the numbers and every latency is a number, then after any calls of the methods
  -- on new metrics, `record_latency` with any operation and any latency of at least 0 among them, an operation has at most 1000 samples, and its statistics are in order: the 50th
  -- percentile is not above the 95th, this not above the 99th, and this not above the maximum.
  pub get_latency_stats-calls :
      (now : ℕ) (cs : List Call) (operation : Text)
      → (length (samples_of d operation (calls d cs (new_metrics d now)).latency_samples)
          ≤ max_latency_samples)
        × IsOrderedStats d (get_latency_stats d operation (calls d cs (new_metrics d now)))
  get_latency_stats-calls now cs operation =
      let m = (calls d cs (new_metrics d now)).latency_samples in
      let h : AllWindows m = calls-AllWindows cs (new_metrics d now) (unfold new_metrics in tt) in
      (
        find-short operation m h,
        get_latency_stats-IsOrderedStats operation (calls d cs (new_metrics d now)) h,
      )
