-- ===== src/Proxy/Upstream/Header.antt =====
-- What the backend is sent, and when the process ends instead.
use proxy_balacer.Base.{ℕ, ◌+◌, ◌≤◌, ◌<◌, ◌≡◌, refl, ap, Bytes, Bool, length, ok, panic, none, ◌++◌}
use proxy_balacer.Models.{Backend}
use proxy_balacer.Vless.Header.{VlessHeader, write_header}
use proxy_balacer.Vless.Uuid.{parse_uuid}
use proxy_balacer.Vless.Flow.{encode_flow_addon}
use proxy_balacer.Io.{Conn}
use proxy_balacer.Reality.Dial.{DialWorld, Preset, config_of, dial_reality}
use proxy_balacer.Reality.FlushWriter.{send_header, new_flush_writer, write, flush}
use proxy_balacer.Io.Copy.{write_fits}
use proxy_balacer.Proxy.Dump.{dump}
use proxy_balacer.Proxy.Dump.Bound.{dump_panics}
use proxy_balacer.Proxy.Upstream.{
  backend_header, override_target, has_vision, dumped, dialed, with_uuid, proxy_to_backend,
}

-- A header for which there is room goes out whole.
pub header_sent :
    (h : VlessHeader) (c : Conn)
    → length (write_header h) ≤ c.room
    → (send_header h c).sent ≡ c.sent ++ write_header h
unfolding send_header flush write new_flush_writer
header_sent h c k = ap (λ (o : (ℕ × Bool) × Conn). o.1.sent) (write_fits (write_header h) c k)

sends :
    (dw : DialWorld) (c : Conn) (p : Preset) (be : Backend) (client : VlessHeader) (uuid s : Bytes)
    → parse_uuid be.uuid ≡ (uuid, none)
    → dial_reality dw (config_of be) ≡ ok p
    → dump (backend_header uuid be client) ≡ ok s
    → proxy_to_backend dw c none be client
      ≡ ok (record {
        uuid = (backend_header uuid be client).uuid;
        conn = send_header (backend_header uuid be client) c;
        vision = has_vision be;
      })
unfolding proxy_to_backend with_uuid dialed dumped override_target
sends dw c p be client uuid s e f d = rw (e, f, d) refl

crashes :
    (dw : DialWorld) (c : Conn) (p : Preset) (be : Backend) (client : VlessHeader) (uuid : Bytes)
    → parse_uuid be.uuid ≡ (uuid, none)
    → dial_reality dw (config_of be) ≡ ok p
    → dump (backend_header uuid be client) ≡ panic
    → proxy_to_backend dw c none be client ≡ panic
unfolding proxy_to_backend with_uuid dialed dumped override_target
crashes dw c p be client uuid e f d = rw (e, f, d) refl

-- With no test target, a backend whose UUID parses and which is reached gets, where its flow's addon and
-- the client's address have 41 bytes at most together, a header with version 0, its own UUID, that
-- addon, and the command, port and address of the client; where they have more, the process ends.
pub proxy_to_backend_lem :
    (dw : DialWorld) (c : Conn) (p : Preset) (be : Backend) (client : VlessHeader) (uuid : Bytes)
    → parse_uuid be.uuid ≡ (uuid, none)
    → dial_reality dw (config_of be) ≡ ok p
    → length uuid ≡ 16
    → (length (encode_flow_addon be.flow) + length client.addr ≤ 41
        → proxy_to_backend dw c none be client
          ≡ ok (record {
            uuid = uuid;
            conn = send_header (backend_header uuid be client) c;
            vision = has_vision be;
          }))
      × (41 < length (encode_flow_addon be.flow) + length client.addr
          → proxy_to_backend dw c none be client ≡ panic)
unfolding backend_header
proxy_to_backend_lem dw c p be client uuid e f u =
    let (a, b) = dump_panics (backend_header uuid be client) u in
    (λ h. sends dw c p be client uuid _ e f (a h), λ h. crashes dw c p be client uuid e f (b h))
