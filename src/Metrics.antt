-- ===== src/Metrics.antt =====
-- metrics.go: the counters. An `atomic.Int64` is its 64-bit pattern, so that it wraps as in Go; a time
-- is the number of nanoseconds since Go's zero time, and each call takes the time of its `time.Now()`.
pub mod History
use proxy_balacer.Base.{
  ℕ, zero, suc, ◌+◌, ◌-◌, ◌%◌, ◌^◌, List, [], ◌∷◌, ◌++◌, length, ltb, if◌then◌else◌,
}

pub record Metrics : Type 0 where
  pub total_connections : ℕ
  pub active_connections : ℕ
  pub failed_connections : ℕ
  pub retried_connections : ℕ
  pub failover_count : ℕ
  pub failback_count : ℕ
  pub last_failover : ℕ
  pub last_failback : ℕ
  pub start_time : ℕ
  pub recent_conns : List ℕ
  pub recent_fails : List ℕ

abbrev pub increment : ℕ → ℕ
increment n = (n + 1) % 2 ^ 64

abbrev pub decrement : ℕ → ℕ
decrement n = (n + (2 ^ 64 - 1)) % 2 ^ 64

unfoldable pub new_metrics : ℕ → Metrics
new_metrics now = record {
  total_connections = 0;
  active_connections = 0;
  failed_connections = 0;
  retried_connections = 0;
  failover_count = 0;
  failback_count = 0;
  last_failover = 0;
  last_failback = 0;
  start_time = now;
  recent_conns = [];
  recent_fails = [];
}

abbrev tail : List ℕ → List ℕ
tail [] = []
tail (t ∷ ts) = ts

-- `append`, and the oldest entry dropped when there are more than 100.
push_recent : List ℕ → ℕ → List ℕ
push_recent ts now = let ts' = ts ++ (now ∷ []) in if ltb 100 (length ts') then tail ts' else ts'

unfoldable pub record_connection : ℕ → Metrics → Metrics
unfolding push_recent
record_connection now m = record m {
  total_connections = increment m.total_connections;
  active_connections = increment m.active_connections;
  recent_conns = push_recent m.recent_conns now;
}

unfoldable pub record_close : Metrics → Metrics
record_close m = record m { active_connections = decrement m.active_connections }

unfoldable pub record_failure : ℕ → Metrics → Metrics
unfolding push_recent
record_failure now m = record m {
  failed_connections = increment m.failed_connections;
  recent_fails = push_recent m.recent_fails now;
}

unfoldable pub record_retry : Metrics → Metrics
record_retry m = record m { retried_connections = increment m.retried_connections }

unfoldable pub record_failover : ℕ → Metrics → Metrics
record_failover now m = record m {
  failover_count = increment m.failover_count;
  last_failover = now;
}

unfoldable pub record_failback : ℕ → Metrics → Metrics
record_failback now m = record m {
  failback_count = increment m.failback_count;
  last_failback = now;
}

abbrev pub minute : ℕ
minute = 60_000_000_000

-- `t.After(now - 1 minute)` for the entries of the list.
count_recent : ℕ → List ℕ → ℕ
count_recent now [] = 0
count_recent now (t ∷ ts) =
    if ltb now (t + minute) then suc (count_recent now ts) else count_recent now ts

-- The Go function returns the count as a float.
unfoldable pub conns_per_minute : ℕ → Metrics → ℕ
unfolding count_recent
conns_per_minute now m = count_recent now m.recent_conns
