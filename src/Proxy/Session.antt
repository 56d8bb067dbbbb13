-- ===== src/Proxy/Session.antt =====
-- proxy.go: `handleTLSConnection`.
pub mod Ways
pub mod Counts
use proxy_balacer.Base.{
  ℕ, Bytes, Bool, true, false, [], ◌∷◌, List, Option, none, some, if◌then◌else◌, ◌=ᵇ◌, Result, ok,
  err, panic,
}
use proxy_balacer.Balancer.{Balancer, backend_by_addr}
use proxy_balacer.Metrics.{Metrics, record_connection, record_close, record_failure}
use proxy_balacer.Models.{Backend, addr}
use proxy_balacer.Vless.Header.{VlessHeader, HeaderError, read_header}
use proxy_balacer.Io.{Conn}
use proxy_balacer.Reality.Dial.{DialWorld}
use proxy_balacer.Proxy.Upstream.{TargetHost, BackendError, Upstream, proxy_to_backend}

-- The times of the calls, and what the TLS library and the dialer answer, and the connection that it gives.
pub record World : Type 0 where
  pub opened_at : ℕ
  pub failed_at : ℕ
  pub has_tls : Bool
  pub handshake_ok : Bool
  pub dialer : DialWorld
  pub backend_conn : Conn
  pub target : Option (ℕ × TargetHost)

-- `crashed` is the end of the process: no goroutine of the program recovers from a panic.
pub data Outcome : Type 0 where
  no_tls no_handshake no_active no_backend no_uuid crashed : Outcome
  bad_header : HeaderError → Outcome
  failed : BackendError → Outcome
  relayed : Upstream → Bytes → Outcome

unfoldable pub finished : Bytes → Result BackendError Upstream → Outcome
finished rest (ok u) = relayed u rest
finished rest (err e) = failed e
finished rest panic = crashed

unfoldable pub to_backend : World → VlessHeader → Bytes → Option Backend → Outcome
unfolding finished
to_backend wd h rest none = no_backend
to_backend wd h rest (some be) =
    if be.uuid =ᵇ []
    then no_uuid
    else finished rest (proxy_to_backend wd.dialer wd.backend_conn wd.target be h)

unfoldable pub with_header : World → Balancer → Result HeaderError (VlessHeader × Bytes) → Outcome
unfolding to_backend
with_header wd b (ok (h, rest)) =
    if b.current_addr =ᵇ []
    then no_active
    else to_backend wd h rest (backend_by_addr b.current_addr b.backends)
with_header wd b (err e) = bad_header e
with_header wd b panic = crashed

-- The way of a connection whose client sends `s` in the TLS session.
unfoldable pub serve : World → Balancer → Bytes → Outcome
unfolding with_header
serve wd b s =
    if wd.has_tls
    then (if wd.handshake_ok then with_header wd b (read_header s) else no_handshake)
    else no_tls

unfoldable pub count_failure : ℕ → Outcome → Metrics → Metrics
count_failure now (failed e) m = record_failure now m
count_failure now o m = m

-- `handleTLSConnection`: the deferred close is counted last, on every way out.
unfoldable pub handle_tls_connection : World → Balancer → Bytes → Metrics → Outcome × Metrics
unfolding serve count_failure
handle_tls_connection wd b s m =
    let o = serve wd b s in
    (o, record_close (count_failure wd.failed_at o (record_connection wd.opened_at m)))
