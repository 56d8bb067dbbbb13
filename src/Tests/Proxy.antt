-- ===== src/Tests/Proxy.antt =====
-- Connections of the proxy on concrete states.
use proxy_balacer.Base.{
  ℕ, IsByte, ltb, ◌&&◌, Bool, zero, suc, All, Bytes, codes, [], ◌∷◌, ◌++◌, replicate, none, some,
  ok, ◌≡◌, ◌≤◌, refl, arith, true, false, length, ◌=ᵇ◌, decimal, has_prefix, if◌then◌else◌,
}
use proxy_balacer.Io.{read_full, read_byte, read_u16}
use proxy_balacer.Io.Reads.{Positive}
use proxy_balacer.Models.{Backend, addr}
use proxy_balacer.Metrics.{new_metrics, increment}
use proxy_balacer.Balancer.{Balancer, backend_by_addr, new_balancer, unreadable}
use proxy_balacer.Vless.Header.{VlessHeader, read_header, write_header, write_addr}
use proxy_balacer.Vless.Flow.{encode_flow_addon}
use proxy_balacer.Vless.Uuid.{parse_uuid}
use proxy_balacer.Base64.{
  trim_space, drop_if_blank, is_blank, decode_std, drop_line_ends, decode_quanta, padded_end,
  value_of,
}
use proxy_balacer.Reality.Keys.{base64_to_bytes, pad, replace_all, short_id, copy_8}
use proxy_balacer.Reality.Dial.{
  Preset, hello_chrome, hello_firefox, dial_reality, config_of, with_key, preset_of, connect,
  build_client_hello_id, to_lower, build_reality_extension,
}
use proxy_balacer.Proxy.{Service, handle_raw_connection, service_of, is_http}
use proxy_balacer.Proxy.Upstream.{contains, has_vision, backend_header, Upstream}
use proxy_balacer.Proxy.Session.{World, relayed, crashed, serve, handle_tls_connection}
use proxy_balacer.Proxy.Session.Counts.{is_failure, handle_tls_connection-counts}
use proxy_balacer.Proxy.Session.Ways.{IsOpen, serve-relayed, serve-crashed}

tls_first : handle_raw_connection (0x16 ∷ 3 ∷ []) ≡ Service.tls
unfolding handle_raw_connection service_of read_full
tls_first = refl

get_first : handle_raw_connection (codes "GET /") ≡ Service.http
unfolding handle_raw_connection service_of read_full is_http
get_first = refl

head_refused : handle_raw_connection (codes "HEAD /") ≡ Service.closed
unfolding handle_raw_connection service_of read_full is_http
head_refused = refl

abbrev pub vision_backend : Backend
vision_backend = record {
  id = 1;
  name = codes "a";
  sub_url = [];
  host = codes "a";
  port = 443;
  sni = codes "a";
  primary = true;
  enabled = true;
  last_fetch = 0;
  uuid = codes "07070707-0707-0707-0707-070707070707";
  reality_pub_key = replicate 43 b'A';
  reality_short_id = [];
  reality_spider_x = [];
  fingerprint = [];
  flow = codes "xtls-rprx-vision";
}

framed : has_vision vision_backend ≡ true
unfolding has_vision contains has_prefix
framed = refl

abbrev pub sevens : Bytes
sevens = replicate 16 7

pub parsed : parse_uuid vision_backend.uuid ≡ (sevens, none)
unfolding parse_uuid
parsed = refl

pub addon_18 : length (encode_flow_addon vision_backend.flow) ≡ 18
unfolding encode_flow_addon
addon_18 = refl

abbrev pub balancer : Balancer
balancer = record (new_balancer false 0 0 unreadable (vision_backend ∷ [])) {
  current_addr = codes "a:443";
}

abbrev pub some_preset : Preset
some_preset = record {
  server_name = codes "a";
  hello_id = hello_chrome;
  extension = replicate 42 0;
}

abbrev pub world : World
world = record {
  opened_at = 1;
  failed_at = 2;
  has_tls = true;
  handshake_ok = true;
  dialer = record { dial_ok = true; preset_ok = λ _. true; handshake_ok = λ _. true };
  backend_conn = record { sent = []; room = 2000 };
  target = none;
}

abbrev pub to_name : Bytes → VlessHeader
to_name a = record {
  version = 0;
  uuid = replicate 16 9;
  addon = [];
  cmd = 1;
  port = 443;
  atyp = 2;
  addr = a;
}

abbrev pub short_name : Bytes
short_name = codes "a.io"

-- 24 bytes, one more than there is room for.
abbrev long_name : Bytes
long_name = codes "images.cdn.example.co.uk"

abbrev pub client_bytes : Bytes → Bytes
client_bytes a = 0 ∷ (replicate 16 9 ++ (0 ∷ 1 ∷ 1 ∷ 187 ∷ 2 ∷ length a ∷ a ++ codes "hi"))

short_read : read_header (client_bytes short_name) ≡ ok (to_name short_name, codes "hi")
unfolding read_header read_full read_byte read_u16
short_read = refl

long_read : read_header (client_bytes long_name) ≡ ok (to_name long_name, codes "hi")
unfolding read_header read_full read_byte read_u16
long_read = refl

pub dialed : dial_reality world.dialer (config_of vision_backend) ≡ ok some_preset
unfolding dial_reality config_of with_key preset_of connect build_client_hello_id to_lower
    build_reality_extension base64_to_bytes pad replace_all short_id copy_8 trim_space drop_if_blank
    is_blank decode_std drop_line_ends decode_quanta padded_end value_of ◌=ᵇ◌
dialed = refl

-- A Turkish capital letter in a name of a browser has the lower case `i`.
dotted : build_client_hello_id (b'F' ∷ 0xC4 ∷ 0xB0 ∷ codes "REFOX") ≡ hello_firefox
unfolding build_client_hello_id to_lower ◌=ᵇ◌
dotted = refl

pub short_fits :
    length (write_header (backend_header sevens vision_backend (to_name short_name))) ≤ 1000
unfolding write_header write_addr backend_header encode_flow_addon
short_fits = omega arith

unfoldable pub all_bytes : Bytes → Bool
all_bytes [] = true
all_bytes (b ∷ s) = ltb b 256 && all_bytes s

pub bytes_lem : (s : Bytes) → all_bytes s ≡ true → All IsByte s
unfolding all_bytes
bytes_lem [] h = tt
bytes_lem (b ∷ s) h = (ground arith, bytes_lem s (ground arith))

pub found : backend_by_addr balancer.current_addr balancer.backends ≡ some vision_backend
unfolding backend_by_addr new_balancer addr decimal ◌=ᵇ◌
found = refl

IsOpen-for :
    (a : Bytes)
    → all_bytes (client_bytes a) ≡ true
    → read_header (client_bytes a) ≡ ok (to_name a, codes "hi")
    → IsOpen world balancer (client_bytes a) (to_name a) (codes "hi") vision_backend sevens
unfolding ◌=ᵇ◌
IsOpen-for a h r = record {
  has_tls = refl;
  handshake_ok = refl;
  preset = some_preset;
  dialed = dialed;
  new_conn = refl;
  no_target = refl;
  client_bytes = bytes_lem (client_bytes a) h;
  client_header = r;
  has_active = refl;
  active_backend = found;
  has_uuid = refl;
  parsed = parsed;
  uuid_16 = refl;
}

short-IsOpen :
    IsOpen world balancer
      (client_bytes short_name)
      (to_name short_name)
      (codes "hi")
      vision_backend
      sevens
unfolding all_bytes
short-IsOpen = IsOpen-for short_name refl short_read

long-IsOpen :
    IsOpen world balancer
      (client_bytes long_name)
      (to_name long_name)
      (codes "hi")
      vision_backend
      sevens
unfolding all_bytes
long-IsOpen = IsOpen-for long_name refl long_read

serve-relayed_example :
    (u : Upstream) × (serve world balancer (client_bytes short_name) ≡ relayed u (codes "hi"))
    × (read_header (u.conn.sent ++ codes "x")
        ≡ ok (backend_header sevens vision_backend (to_name short_name), codes "x"))
serve-relayed_example =
    serve-relayed world balancer (client_bytes short_name) (to_name short_name) (codes "hi")
      vision_backend sevens (codes "x") short-IsOpen (omega (arith, addon_18))
      (omega (arith, short_fits))

serve-crashed_example : serve world balancer (client_bytes long_name) ≡ crashed
serve-crashed_example =
    serve-crashed world balancer (client_bytes long_name) (to_name long_name) (codes "hi")
      vision_backend sevens long-IsOpen (omega (arith, addon_18))

handle_tls_connection-counts_example :
    let (o, m) = handle_tls_connection world balancer (client_bytes short_name) (new_metrics 0) in
    (m.total_connections ≡ increment (new_metrics 0).total_connections)
    × (m.active_connections ≡ (new_metrics 0).active_connections)
    × (m.failed_connections ≡ (
        if is_failure o
        then increment (new_metrics 0).failed_connections
        else (new_metrics 0).failed_connections))
unfolding new_metrics
handle_tls_connection-counts_example =
    handle_tls_connection-counts world balancer (client_bytes short_name) (new_metrics 0)
      (omega arith)

pub positive : (n : ℕ) → All Positive (replicate n (4, 4))
positive zero = tt
positive (suc n) = ((omega arith, omega arith), positive n)
