-- ===== src/Reality/Dial.antt =====
-- reality.go: `DialReality`, `ProxyToBackend`, and the extension of the ClientHello.
--
-- The connection and the TLS library are in `DialWorld`, which says what they answer. The preset is what the
-- library is given: the server name, the fingerprint and the extension; the cipher suites and the other
-- extensions are constants.
pub mod Extension
use proxy_balacer.Base.{
  ℕ, zero, suc, ◌+◌, Bytes, Bool, ◌&&◌, ◌||◌, not, [], ◌∷◌, ◌++◌, Option, none, some, length, leb,
  ◌==◌, ◌=ᵇ◌, if◌then◌else◌, codes, put_be16, Result, ok, err, panic,
}
use proxy_balacer.Models.{Backend, addr}
use proxy_balacer.Vless.Header.{VlessHeader}
use proxy_balacer.Io.{Conn}
use proxy_balacer.Reality.FlushWriter.{send_header}
use proxy_balacer.Vless.Uuid.{UuidError, parse_uuid}
use proxy_balacer.Reality.Keys.{base64_to_bytes, short_id}

pub record RealityConfig : Type 0 where
  pub addr : Bytes
  pub sni : Bytes
  pub pub_key : Bytes
  pub short_id : Bytes
  pub spider_x : Bytes
  pub fingerprint : Bytes
  pub flow : Bytes

unfoldable pub config_of : Backend → RealityConfig
config_of be = record {
  addr = addr be;
  sni = be.sni;
  pub_key = be.reality_pub_key;
  short_id = be.reality_short_id;
  spider_x = be.reality_spider_x;
  fingerprint = be.fingerprint;
  flow = be.flow;
}

pub data ClientHelloId : Type 0 where
  hello_chrome hello_firefox hello_ios hello_edge hello_randomized : ClientHelloId

ascii_lower : ℕ → ℕ
ascii_lower c = if leb b'A' c && leb c b'Z' then c + 32 else c

-- The lower-case letter at the start of a text, and the number of bytes after the first that it takes.
lower_at : ℕ → Bytes → ℕ × ℕ
unfolding ascii_lower
lower_at c [] = (ascii_lower c, 0)
lower_at c (d ∷ []) = if (c == 0xC4) && (d == 0xB0) then (b'i', 1) else (ascii_lower c, 0)
lower_at c (d ∷ e ∷ s) =
    if (c == 0xE2) && ((d == 0x84) && (e == 0xAA))
    then (b'k', 2)
    else if (c == 0xC4) && (d == 0xB0)
    then (b'i', 1)
    else (ascii_lower c, 0)

lower_from : ℕ → Bytes → Bytes
unfolding lower_at
lower_from n [] = []
lower_from (suc n) (c ∷ s) = lower_from n s
lower_from zero (c ∷ s) = let (l, n) = lower_at c s in l ∷ lower_from n s

-- `strings.ToLower`, for comparison with names in ASCII: of the letters outside ASCII only U+0130 and U+212A
-- have one in ASCII for their lower case; any other is left as it is, and is part of no such name before and
-- after.
unfoldable pub to_lower : Bytes → Bytes
unfolding lower_from
to_lower s = lower_from 0 s

unfoldable pub build_client_hello_id : Bytes → ClientHelloId
unfolding to_lower
build_client_hello_id fp =
    if to_lower fp =ᵇ codes "chrome"
    then hello_chrome
    else if to_lower fp =ᵇ codes "firefox"
    then hello_firefox
    else if to_lower fp =ᵇ codes "safari"
    then hello_ios
    else if to_lower fp =ᵇ codes "edge"
    then hello_edge
    else if (to_lower fp =ᵇ codes "random") || (to_lower fp =ᵇ codes "randomized")
    then hello_randomized
    else hello_chrome

-- The data of the extension 0xff00: the length of the text is cut to 16 bits.
unfoldable pub build_reality_extension : Bytes → Bytes → Bytes → Bytes
build_reality_extension key id spider_x = id ++ (key ++ (put_be16 (length spider_x) ++ spider_x))

pub record Preset : Type 0 where
  pub server_name : Bytes
  pub hello_id : ClientHelloId
  pub extension : Bytes

pub data DialError : Type 0 where
  dial decode_key apply_preset handshake : DialError
  key_length : ℕ → DialError

pub record DialWorld : Type 0 where
  pub dial_ok : Bool
  pub preset_ok : Preset → Bool
  pub handshake_ok : Preset → Bool

unfoldable pub preset_of : RealityConfig → Bytes → Preset
unfolding build_client_hello_id build_reality_extension
preset_of cfg key = record {
  server_name = cfg.sni;
  hello_id = build_client_hello_id cfg.fingerprint;
  extension = build_reality_extension key (short_id cfg.short_id) cfg.spider_x;
}

unfoldable pub connect : DialWorld → Preset → Result DialError Preset
connect wd p =
    if not (wd.preset_ok p)
    then err apply_preset
    else if not (wd.handshake_ok p)
    then err handshake
    else ok p

unfoldable pub with_key : DialWorld → RealityConfig → Option Bytes → Result DialError Preset
unfolding connect preset_of
with_key wd cfg none = err decode_key
with_key wd cfg (some key) =
    if length key == 32 then connect wd (preset_of cfg key) else err (key_length (length key))

-- `DialReality`: an error, or a connection set up with the preset. Every error after the first closes the
-- connection.
unfoldable pub dial_reality : DialWorld → RealityConfig → Result DialError Preset
unfolding with_key
dial_reality wd cfg = if wd.dial_ok then with_key wd cfg (base64_to_bytes cfg.pub_key) else err dial

pub data RelayError : Type 0 where
  parse_backend_uuid : UuidError → RelayError
  dial_backend : DialError → RelayError

-- The header of `ProxyToBackend`: the client's, addon included, but for version and UUID.
unfoldable pub restamped : Bytes → VlessHeader → VlessHeader
restamped uuid client = record client { version = 0x00; uuid = uuid }

unfoldable pub sent_to :
    Conn → VlessHeader → Bytes → Result DialError Preset → Result RelayError Conn
unfolding restamped send_header
sent_to c client uuid (ok p) = ok (send_header (restamped uuid client) c)
sent_to c client uuid (err e) = err (dial_backend e)
sent_to c client uuid panic = panic

unfoldable pub relay_from :
    DialWorld → Conn → Backend → VlessHeader → Bytes × Option UuidError → Result RelayError Conn
unfolding sent_to config_of
relay_from wd c be client (uuid, some e) = err (parse_backend_uuid e)
relay_from wd c be client (uuid, none) = sent_to c client uuid (dial_reality wd (config_of be))

-- `ProxyToBackend` up to its copies, on the connection that the dialer gives. `WriteVLESSHeader` into a
-- `FlushWriter` returns no error.
unfoldable pub proxy_to_backend : DialWorld → Conn → Backend → VlessHeader → Result RelayError Conn
unfolding relay_from
proxy_to_backend wd c be client = relay_from wd c be client (parse_uuid be.uuid)
