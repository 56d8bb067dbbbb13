-- ===== src/Setup/Secret.antt =====
-- The secret of the admin panel over restarts.
use proxy_balacer.Base.{
  Bytes, Bool, true, false, ◌++◌, Option, none, some, ◌=ᵇ◌, text_eq_refl, if◌then◌else◌, codes,
  Result, ok, ◌≡◌, refl, ap, ◌∙◌,
}
use proxy_balacer.Setup.{
  Config, Disk, LoadError, default_config, hex_encode, write_file, is_default, with_secret,
  parsed_config, file_config, load_config,
}

abbrev pub secret_path : Config → Bytes
secret_path cfg = cfg.db_path ++ codes ".secret"

loads_default :
    (path random s : Bytes) (w : Bool) (d : Disk) (cfg : Config)
    → d.read_file path ≡ some s
    → d.unmarshal s default_config ≡ some cfg
    → is_default cfg.admin_secret ≡ true
    → load_config path random w d ≡ (
      ok (with_secret random w cfg d (d.read_file (secret_path cfg))).0,
      (with_secret random w cfg d (d.read_file (secret_path cfg))).1,
    )
unfolding load_config file_config parsed_config
loads_default path random s w d cfg r u i = rw (r, u, i) refl

read-write_file :
    (path p s : Bytes) (d : Disk)
    → (write_file path s d).read_file p ≡ (if p =ᵇ path then some s else d.read_file p)
unfolding write_file
read-write_file path p s d = refl

unmarshal-write_file : (path s : Bytes) (d : Disk) → (write_file path s d).unmarshal ≡ d.unmarshal
unfolding write_file
unmarshal-write_file path s d = refl

made :
    (random : Bytes) (cfg : Config) (d : Disk) (o : Option Bytes)
    → o ≡ none
    → ◌≡◌ {A = Result LoadError Config × Disk}
        (ok (with_secret random true cfg d o).0, (with_secret random true cfg d o).1)
        (
          ok (record cfg { admin_secret = hex_encode random }),
          write_file (secret_path cfg) (hex_encode random) d,
        )
unfolding with_secret
made random cfg d o e = rw e refl

found :
    (random s : Bytes) (w : Bool) (cfg : Config) (d : Disk) (o : Option Bytes)
    → o ≡ some s
    → (with_secret random w cfg d o).0 ≡ record cfg { admin_secret = s }
unfolding with_secret
found random s w cfg d o e = rw e refl

read_other :
    (path q s t : Bytes) (d : Disk)
    → (path =ᵇ q) ≡ false
    → d.read_file path ≡ some s
    → (write_file q t d).read_file path ≡ some s
read_other path q s t d o r = read-write_file q path t d ∙ rw o r

read_back : (q t : Bytes) (d : Disk) → (write_file q t d).read_file q ≡ some t
read_back q t d = read-write_file q q t d ∙ rw (text_eq_refl q) refl

-- Where the configuration file leaves the secret at its default, there is no file of the secret yet, and it
-- can be written, the first start draws the secret, and every later start on the same files finds the same
-- one, whatever it would draw.
pub load-load_config :
    (path first second s : Bytes) (w : Bool) (d : Disk) (cfg : Config)
    → d.read_file path ≡ some s
    → d.unmarshal s default_config ≡ some cfg
    → is_default cfg.admin_secret ≡ true
    → d.read_file (secret_path cfg) ≡ none
    → (path =ᵇ secret_path cfg) ≡ false
    → let (one, d1) = load_config path first true d in
      (one ≡ ok (record cfg { admin_secret = hex_encode first }))
      × ((load_config path second w d1).0 ≡ one)
load-load_config path first second s w d cfg r u i n o =
    let q = secret_path cfg in
    let d1 : Disk = write_file q (hex_encode first) d in
    let e : load_config path first true d
        ≡ (ok (record cfg { admin_secret = hex_encode first }), d1) =
      loads_default path first s true d cfg r u i ∙ made first cfg d (d.read_file q) n in
    let k : (load_config path second w d1).0 ≡ ok (record cfg { admin_secret = hex_encode first }) =
      ap (λ o. o.0)
        (loads_default path second s w d1 cfg (read_other path q s (hex_encode first) d o r)
          (ap (λ f. f s default_config) (unmarshal-write_file q (hex_encode first) d) ∙ u) i)
      ∙ ap ok (
          found second (hex_encode first) w cfg d1 (d1.read_file q)
            (read_back q (hex_encode first) d)) in
    rw e (refl, k)
