-- ===== src/Tests/Metrics.antt =====
-- The counters after concrete histories.
use proxy_balacer.Base.{◌+◌, ◌-◌, List, [], ◌∷◌, length, ◌≡◌, refl, arith}
use proxy_balacer.Metrics.{new_metrics, conns_per_minute, minute}
use proxy_balacer.Metrics.History.{
  Call, connection, failure, close, retry, run, connection_times, closes, active-run,
}

abbrev calls : List Call
calls = connection 5 ∷ retry ∷ connection (minute + 6) ∷ failure 9 ∷ close ∷ []

rate : conns_per_minute (minute + 7) (run calls (new_metrics 0)) ≡ 1
unfolding conns_per_minute run new_metrics
rate = refl

active-run_example :
    ((run calls (new_metrics 0)).total_connections ≡ length (connection_times calls))
    × ((run calls (new_metrics 0)).active_connections
        ≡ length (connection_times calls) - closes calls)
unfolding connection_times closes
active-run_example = active-run calls 0 (omega arith) (omega arith)
