-- ===== src/Proxy/Session/Ways.antt =====
-- A connection that reaches its backend.
use proxy_balacer.Base.{
  ℕ, Bool, ◌-◌, ◌+◌, ◌≤◌, ◌<◌, ◌≡◌, refl, ap, ◌∙◌, Bytes, true, false, [], All, IsByte, length,
  ◌++◌, ◌=ᵇ◌, arith, some, none, ok,
}
use proxy_balacer.Balancer.{Balancer, backend_by_addr}
use proxy_balacer.Models.{Backend}
use proxy_balacer.Vless.Header.{VlessHeader, read_header, write_header}
use proxy_balacer.Vless.Header.RoundTrip.{IsWire, read-write, write-read}
use proxy_balacer.Vless.Uuid.{parse_uuid}
use proxy_balacer.Vless.Flow.{encode_flow_addon}
use proxy_balacer.Reality.Dial.{Preset, config_of, dial_reality}
use proxy_balacer.Reality.FlushWriter.{send_header, new_flush_writer, write, flush}
use proxy_balacer.Io.{Conn}
use proxy_balacer.Io.Copy.{write_fits}
use proxy_balacer.Proxy.Upstream.{Upstream, backend_header, has_vision, proxy_to_backend}
use proxy_balacer.Proxy.Upstream.Header.{header_sent, proxy_to_backend_lem}
use proxy_balacer.Proxy.Session.{World, relayed, crashed, finished, to_backend, with_header, serve}

-- The way is open to a backend: TLS and the dialer work, the connection to the backend is new, there is no
-- test target, the client has sent a header, and the active address is that of a backend whose UUID parses.
pub record IsOpen (wd : World) (b : Balancer) (s : Bytes) (client : VlessHeader) (rest : Bytes)
    (be : Backend) (uuid : Bytes) : Type 0 where
  pub has_tls : wd.has_tls ≡ true
  pub handshake_ok : wd.handshake_ok ≡ true
  pub preset : Preset
  pub dialed : dial_reality wd.dialer (config_of be) ≡ ok preset
  pub new_conn : wd.backend_conn.sent ≡ []
  pub no_target : wd.target ≡ none
  pub client_bytes : All IsByte s
  pub client_header : read_header s ≡ ok (client, rest)
  pub has_active : (b.current_addr =ᵇ []) ≡ false
  pub active_backend : backend_by_addr b.current_addr b.backends ≡ some be
  pub has_uuid : (be.uuid =ᵇ []) ≡ false
  pub parsed : parse_uuid be.uuid ≡ (uuid, none)
  pub uuid_16 : length uuid ≡ 16

open_way :
    (wd : World) (b : Balancer) (s : Bytes) (client : VlessHeader) (rest : Bytes) (be : Backend)
    (uuid : Bytes)
    → IsOpen wd b s client rest be uuid
    → serve wd b s ≡ finished rest (proxy_to_backend wd.dialer wd.backend_conn none be client)
unfolding serve with_header to_backend
open_way wd b s client rest be uuid o =
    rw
      (
        o.has_tls, o.handshake_ok, o.client_header, o.has_active, o.active_backend, o.has_uuid,
        o.no_target,
      )
      refl

-- What the relays start from.
unfoldable pub upstream_of : World → Backend → Bytes → VlessHeader → Upstream
upstream_of wd be uuid client = record {
  uuid = uuid;
  conn = send_header (backend_header uuid be client) wd.backend_conn;
  vision = has_vision be;
}

pub serve_open :
    (wd : World) (b : Balancer) (s : Bytes) (client : VlessHeader) (rest : Bytes) (be : Backend)
    (uuid : Bytes)
    → IsOpen wd b s client rest be uuid
    → length (encode_flow_addon be.flow) + length client.addr ≤ 41
    → serve wd b s ≡ relayed (upstream_of wd be uuid client) rest
unfolding finished upstream_of
serve_open wd b s client rest be uuid o h =
    let (a, _) =
      proxy_to_backend_lem wd.dialer wd.backend_conn o.preset be client uuid o.parsed o.dialed
        o.uuid_16 in
    rw (open_way wd b s client rest be uuid o, a h) refl

pub upstream-sent :
    (wd : World) (b : Balancer) (s : Bytes) (client : VlessHeader) (rest : Bytes) (be : Backend)
    (uuid : Bytes)
    → IsOpen wd b s client rest be uuid
    → length (write_header (backend_header uuid be client)) ≤ wd.backend_conn.room
    → (upstream_of wd be uuid client).conn.sent ≡ write_header (backend_header uuid be client)
unfolding upstream_of
upstream-sent wd b s client rest be uuid o k =
    header_sent (backend_header uuid be client) wd.backend_conn k
    ∙ ap (λ t. t ++ write_header (backend_header uuid be client)) o.new_conn

pub upstream-room :
    (wd : World) (be : Backend) (uuid : Bytes) (client : VlessHeader)
    → length (write_header (backend_header uuid be client)) ≤ wd.backend_conn.room
    → (upstream_of wd be uuid client).conn.room
      ≡ wd.backend_conn.room - length (write_header (backend_header uuid be client))
unfolding upstream_of send_header flush write new_flush_writer
upstream-room wd be uuid client k =
    ap (λ (o : (ℕ × Bool) × Conn). o.1.room)
      (write_fits (write_header (backend_header uuid be client)) wd.backend_conn k)

backend_header-IsWire :
    (be : Backend) (client : VlessHeader) (uuid : Bytes)
    → IsWire client
    → length uuid ≡ 16
    → length (encode_flow_addon be.flow) ≤ 41
    → IsWire (backend_header uuid be client)
unfolding backend_header
backend_header-IsWire be client uuid w u a = record {
  version_zero = refl;
  uuid_16 = u;
  addon_short = omega arith;
  port_u16 = w.port_u16;
  addr_fits = w.addr_fits;
}

-- Where the way to a backend is open, its flow's addon and the client's address have 41 bytes at most
-- together, and the connection has room for the header, the bytes that the client sent after its header are
-- relayed, and the backend reads from what it is sent before them a header with its own UUID and flow and
-- the command, port and address of the client, whatever follows.
pub serve-relayed :
    (wd : World) (b : Balancer) (s : Bytes) (client : VlessHeader) (rest : Bytes) (be : Backend)
    (uuid more : Bytes)
    → IsOpen wd b s client rest be uuid
    → length (encode_flow_addon be.flow) + length client.addr ≤ 41
    → length (write_header (backend_header uuid be client)) ≤ wd.backend_conn.room
    → (u : Upstream) × (serve wd b s ≡ relayed u rest)
      × (read_header (u.conn.sent ++ more) ≡ ok (backend_header uuid be client, more))
serve-relayed wd b s client rest be uuid more o h k =
    let (w, _) = write-read s rest client o.client_bytes o.client_header in
    (
      upstream_of wd be uuid client,
      serve_open wd b s client rest be uuid o h,
      ap (λ t. read_header (t ++ more)) (upstream-sent wd b s client rest be uuid o k)
          ∙ read-write (backend_header uuid be client) more
              (backend_header-IsWire be client uuid w o.uuid_16 (omega arith)),
    )

-- Where the way to a backend is open, and its flow's addon and the client's address have more than 41 bytes
-- together, the connection ends the process.
pub serve-crashed :
    (wd : World) (b : Balancer) (s : Bytes) (client : VlessHeader) (rest : Bytes) (be : Backend)
    (uuid : Bytes)
    → IsOpen wd b s client rest be uuid
    → 41 < length (encode_flow_addon be.flow) + length client.addr
    → serve wd b s ≡ crashed
unfolding finished
serve-crashed wd b s client rest be uuid o h =
    let (_, c) =
      proxy_to_backend_lem wd.dialer wd.backend_conn o.preset be client uuid o.parsed o.dialed
        o.uuid_16 in
    rw (open_way wd b s client rest be uuid o, c h) refl
