-- ===== src/Proxy.antt =====
-- proxy.go: what the proxy does with a connection.
--
-- A connection is served by its first byte. A TLS connection carries a VLESS header; the backend that
-- is active then gets a header of its own, and the streams are relayed by the Vision code. The TLS
-- library and the dialer of the backend are in `World`, which says what they answer.
pub mod Prepend
pub mod Dump
pub mod Session
pub mod Http
pub mod Upstream
pub mod Streams
use proxy_balacer.Base.{
  ℕ, Bytes, Bool, true, false, ◌||◌, ◌∷◌, [], ◌==◌, if◌then◌else◌, Result, ok, err, panic,
}
use proxy_balacer.Io.{ReadError, read_full}

pub data Service : Type 0 where
  tls http closed : Service

unfoldable pub is_http : ℕ → Bool
is_http b = b == b'G' || b == b'P' || b == b'D' || b == b'C' || b == b'O'

unfoldable pub service_of : Result ReadError (Bytes × Bytes) → Service
service_of (ok (b ∷ [], rest)) =
    if b == 0x16 then Service.tls else if is_http b then Service.http else Service.closed
service_of (ok (s, rest)) = Service.closed
service_of (err e) = Service.closed
service_of panic = Service.closed

-- `handleRawConnection` on a connection that delivers `s` before its deadline.
unfoldable pub handle_raw_connection : Bytes → Service
handle_raw_connection s = service_of (read_full 1 s)
