-- ===== src/Proxy/Upstream.antt =====
-- proxy.go: `proxyToBackend`.
pub mod Header
use proxy_balacer.Base.{
  ℕ, Bytes, Bool, true, false, ◌||◌, [], ◌∷◌, Option, none, some, codes, has_prefix, if◌then◌else◌,
  Result, ok, err, panic, ◌++◌,
}
use proxy_balacer.Models.{Backend, addr}
use proxy_balacer.Vless.Header.{VlessHeader, atyp_ipv4, atyp_ipv6, atyp_domain}
use proxy_balacer.Vless.Flow.{encode_flow_addon}
use proxy_balacer.Vless.Uuid.{UuidError, parse_uuid}
use proxy_balacer.Io.{Conn}
use proxy_balacer.Reality.Dial.{DialWorld, DialError, Preset, config_of, dial_reality}
use proxy_balacer.Reality.FlushWriter.{send_header}
use proxy_balacer.Proxy.Dump.{dump}

-- `strings.Contains`.
unfoldable pub contains : Bytes → Bytes → Bool
contains [] t = has_prefix [] t
contains (c ∷ s) t = has_prefix (c ∷ s) t || contains s t

-- The host of `TestTarget` as `net.SplitHostPort` and `net.ParseIP` give it.
pub data TargetHost : Type 0 where
  ipv4 ipv6 name : Bytes → TargetHost

unfoldable pub backend_header : Bytes → Backend → VlessHeader → VlessHeader
backend_header uuid be client = record {
  version = 0x00;
  uuid = uuid;
  addon = encode_flow_addon be.flow;
  cmd = client.cmd;
  port = client.port;
  atyp = client.atyp;
  addr = client.addr;
}

unfoldable pub override_host : TargetHost → VlessHeader → VlessHeader
override_host (TargetHost.ipv4 a) h = record h { atyp = atyp_ipv4; addr = a }
override_host (TargetHost.ipv6 a) h = record h { atyp = atyp_ipv6; addr = a }
override_host (TargetHost.name a) h = record h { atyp = atyp_domain; addr = a }

-- The port and host of a test target that is not empty.
unfoldable pub override_target : Option (ℕ × TargetHost) → VlessHeader → VlessHeader
unfolding override_host
override_target none h = h
override_target (some (port, host)) h = override_host host (record h { port = port })

pub data BackendError : Type 0 where
  bad_uuid : UuidError → BackendError
  dial : DialError → BackendError

-- The backend's connection once the header is sent, with its UUID, and whether the backend's side is framed.
pub record Upstream : Type 0 where
  pub uuid : Bytes
  pub conn : Conn
  pub vision : Bool

unfoldable pub has_vision : Backend → Bool
unfolding contains
has_vision be = contains be.flow (codes "xtls-rprx-vision")

unfoldable pub dumped :
    Conn → Backend → VlessHeader → Result (Unit {0}) Bytes → Result BackendError Upstream
unfolding has_vision send_header
dumped c be h (ok s) = ok (record { uuid = h.uuid; conn = send_header h c; vision = has_vision be })
dumped c be h (err e) = panic
dumped c be h panic = panic

unfoldable pub dialed :
    Conn
    → Option (ℕ × TargetHost)
    → Backend
    → VlessHeader
    → Bytes
    → Result DialError Preset
    → Result BackendError Upstream
unfolding dumped
dialed c target be client uuid (ok p) =
    let h = override_target target (backend_header uuid be client) in dumped c be h (dump h)
dialed c target be client uuid (err e) = err (dial e)
dialed c target be client uuid panic = panic

unfoldable pub with_uuid :
    DialWorld
    → Conn
    → Option (ℕ × TargetHost)
    → Backend
    → VlessHeader
    → Bytes × Option UuidError
    → Result BackendError Upstream
unfolding dialed
with_uuid dw c target be client (uuid, some e) = err (bad_uuid e)
with_uuid dw c target be client (uuid, none) =
    dialed c target be client uuid (dial_reality dw (config_of be))

-- `proxyToBackend` up to the relays, on the connection that the dialer gives.
unfoldable pub proxy_to_backend :
    DialWorld
    → Conn
    → Option (ℕ × TargetHost)
    → Backend
    → VlessHeader
    → Result BackendError Upstream
unfolding with_uuid
proxy_to_backend dw c target be client = with_uuid dw c target be client (parse_uuid be.uuid)
