-- ===== src/Proxy/Session/Counts.antt =====
-- The counters over a connection.
use proxy_balacer.Base.{◌^◌, ◌<◌, ◌≡◌, refl, Bytes, Bool, true, false, arith, if◌then◌else◌}
use proxy_balacer.Balancer.{Balancer}
use proxy_balacer.Metrics.{Metrics, increment, record_connection, record_close, record_failure}
use proxy_balacer.Proxy.Session.{
  World, Outcome, serve, count_failure, handle_tls_connection, failed,
}

-- The connection ended in an error of the backend.
unfoldable pub is_failure : Outcome → Bool
is_failure (failed e) = true
is_failure o = false

counts_lem :
    (wd : World) (o : Outcome) (m : Metrics)
    → m.active_connections < 2 ^ 64
    → let m1 = record_close (count_failure wd.failed_at o (record_connection wd.opened_at m)) in
      (m1.total_connections ≡ increment m.total_connections)
      × (m1.active_connections ≡ m.active_connections)
      × (m1.failed_connections
          ≡ (if is_failure o then increment m.failed_connections else m.failed_connections))
unfolding count_failure record_connection record_close record_failure is_failure
counts_lem wd Outcome.no_tls m h = (refl, omega arith, refl)
counts_lem wd Outcome.no_handshake m h = (refl, omega arith, refl)
counts_lem wd Outcome.no_active m h = (refl, omega arith, refl)
counts_lem wd Outcome.no_backend m h = (refl, omega arith, refl)
counts_lem wd Outcome.no_uuid m h = (refl, omega arith, refl)
counts_lem wd Outcome.crashed m h = (refl, omega arith, refl)
counts_lem wd (Outcome.bad_header e) m h = (refl, omega arith, refl)
counts_lem wd (Outcome.failed e) m h = (refl, omega arith, refl)
counts_lem wd (Outcome.relayed u rest) m h = (refl, omega arith, refl)

-- Whatever happens to a TLS connection, it is counted once in the total, it counts as active no longer
-- when it has ended, and it counts as failed if and only if the backend ended it in an error: not for a
-- bad handshake, a bad header, or a backend that is missing.
pub handle_tls_connection-counts :
    (wd : World) (b : Balancer) (s : Bytes) (m : Metrics)
    → m.active_connections < 2 ^ 64
    → let (o, m1) = handle_tls_connection wd b s m in
      (m1.total_connections ≡ increment m.total_connections)
      × (m1.active_connections ≡ m.active_connections)
      × (m1.failed_connections
          ≡ (if is_failure o then increment m.failed_connections else m.failed_connections))
unfolding handle_tls_connection
handle_tls_connection-counts wd b s m h = counts_lem wd (serve wd b s) m h
