-- ===== src/Setup.antt =====
-- config.go, and what main.go does with the backends of the configuration file.
pub mod Secret
pub mod Seed
use proxy_balacer.Base.{
  ℕ, ◌+◌, ◌*◌, ◌/◌, ◌%◌, Bytes, Bool, true, false, ◌||◌, List, [], ◌∷◌, ◌++◌, Option, none, some,
  ltb, ◌=ᵇ◌, if◌then◌else◌, codes, ℤ, pos, print_int, Result, ok, err, panic,
}

pub record ConfigBackend : Type 0 where
  pub name : Bytes
  pub sub_url : Bytes
  pub primary : Bool

-- Durations are numbers of nanoseconds.
pub record Config : Type 0 where
  pub listen_addr : Bytes
  pub listen_port : ℤ
  pub public_host : Bytes
  pub backends : List ConfigBackend
  pub health_check_interval : ℤ
  pub health_check_timeout : ℤ
  pub failback : Bool
  pub retry_count : ℤ
  pub retry_delay : ℤ
  pub admin_enabled : Bool
  pub admin_listen : Bytes
  pub admin_port : ℤ
  pub admin_user : Bytes
  pub admin_password : Bytes
  pub admin_secret : Bytes
  pub db_path : Bytes
  pub tls_enabled : Bool
  pub tls_domain : Bytes
  pub tls_email : Bytes
  pub tls_key_file : Bytes
  pub tls_cert_file : Bytes
  pub proxy_uuid : Bytes
  pub raw_relay : Bool
  pub test_target : Bytes

abbrev pub milliseconds : ℕ → ℤ
milliseconds n = pos (n * 1_000_000)

abbrev pub default_config : Config
default_config = record {
  listen_addr = codes "0.0.0.0";
  listen_port = pos 443;
  public_host = [];
  backends = [];
  health_check_interval = milliseconds 10_000;
  health_check_timeout = milliseconds 3_000;
  failback = true;
  retry_count = pos 2;
  retry_delay = milliseconds 500;
  admin_enabled = true;
  admin_listen = codes "0.0.0.0";
  admin_port = pos 8080;
  admin_user = codes "admin";
  admin_password = codes "admin";
  admin_secret = codes "change-me";
  db_path = codes "balancer.db";
  tls_enabled = false;
  tls_domain = [];
  tls_email = [];
  tls_key_file = [];
  tls_cert_file = [];
  proxy_uuid = [];
  raw_relay = false;
  test_target = [];
}

-- `hex.EncodeToString`.
unfoldable pub hex_digit : ℕ → ℕ
hex_digit n = if ltb n 10 then n + 48 else n + 87

unfoldable pub hex_encode : Bytes → Bytes
unfolding hex_digit
hex_encode [] = []
hex_encode (b ∷ s) = hex_digit (b / 16) ∷ hex_digit (b % 16) ∷ hex_encode s

-- The files by their paths, and what `yaml.Unmarshal` makes of a text and the values before.
pub record Disk : Type 0 where
  pub read_file : Bytes → Option Bytes
  pub unmarshal : Bytes → Config → Option Config

pub data LoadError : Type 0 where
  unreadable malformed : LoadError

unfoldable pub write_file : Bytes → Bytes → Disk → Disk
write_file path s d = record d { read_file = λ p. if p =ᵇ path then some s else d.read_file p }

unfoldable pub is_default : Bytes → Bool
is_default secret = (secret =ᵇ codes "change-me-to-random-string") || (secret =ᵇ codes "change-me")

-- The secret of the panel that the file next to the database holds, or a new one, which is written to it
-- where that succeeds.
unfoldable pub with_secret : Bytes → Bool → Config → Disk → Option Bytes → Config × Disk
unfolding hex_encode write_file
with_secret random write_ok cfg d (some s) = (record cfg { admin_secret = s }, d)
with_secret random write_ok cfg d none = (
  record cfg { admin_secret = hex_encode random },
  if write_ok then write_file (cfg.db_path ++ codes ".secret") (hex_encode random) d else d,
)

unfoldable pub parsed_config : Bytes → Bool → Disk → Option Config → Result LoadError Config × Disk
unfolding with_secret is_default
parsed_config random write_ok d none = (err malformed, d)
parsed_config random write_ok d (some cfg) =
    let (made, d1) =
      with_secret random write_ok cfg d (d.read_file (cfg.db_path ++ codes ".secret")) in
    if is_default cfg.admin_secret then (ok made, d1) else (ok cfg, d)

unfoldable pub file_config : Bytes → Bool → Disk → Option Bytes → Result LoadError Config × Disk
unfolding parsed_config
file_config random write_ok d none = (err unreadable, d)
file_config random write_ok d (some s) =
    parsed_config random write_ok d (d.unmarshal s default_config)

-- `LoadConfig`, with the 32 bytes that it draws.
unfoldable pub load_config : Bytes → Bytes → Bool → Disk → Result LoadError Config × Disk
unfolding file_config
load_config path random write_ok d = file_config random write_ok d (d.read_file path)

unfoldable pub config_addr : Config → Bytes
config_addr cfg = cfg.listen_addr ++ (b':' ∷ print_int cfg.listen_port)

unfoldable pub admin_addr : Config → Bytes
admin_addr cfg = cfg.admin_listen ++ (b':' ∷ print_int cfg.admin_port)
