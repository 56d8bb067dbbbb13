-- ===== src/Vless/Header.antt =====
-- vless.go, lines 11-28 and 57-151: the header's record, its reader and its writer.
-- The bytes that a call of the writer appends to its output are the value of `write_header`.
pub mod RoundTrip
use proxy_balacer.Base.{
  ℕ, ◌%◌, Bytes, length, ◌++◌, [], ◌∷◌, ltb, ◌==◌, if◌then◌else◌, Result, ok, err, panic, ◌>>=◌,
  wrap, put_be16, ◌||◌, Bool,
}
use proxy_balacer.Io.{ReadError, read_full, read_byte, read_u16}

abbrev pub cmd_tcp : ℕ
cmd_tcp = 0x01

abbrev pub cmd_udp : ℕ
cmd_udp = 0x02

abbrev pub atyp_ipv4 : ℕ
atyp_ipv4 = 0x01

abbrev pub atyp_domain : ℕ
atyp_domain = 0x02

abbrev pub atyp_ipv6 : ℕ
atyp_ipv6 = 0x04

pub record VlessHeader : Type 0 where
  pub version : ℕ
  pub uuid : Bytes
  pub addon : Bytes
  pub cmd : ℕ
  pub port : ℕ
  pub atyp : ℕ
  pub addr : Bytes

-- One constructor for each `fmt.Errorf`; those that wrap an error keep it.
pub data HeaderError : Type 0 where
  read_version read_uuid read_addon_len read_addon read_cmd read_port read_atyp :
      ReadError → HeaderError
  read_ipv4 read_ipv6 read_domain_len read_domain : ReadError → HeaderError
  unsupported_version unknown_atyp : ℕ → HeaderError

read_addr : ℕ → Bytes → Result HeaderError (Bytes × Bytes)
read_addr atyp s =
    if atyp == atyp_ipv4
    then wrap read_ipv4 (read_full 4 s)
    else if atyp == atyp_ipv6
    then wrap read_ipv6 (read_full 16 s)
    else if atyp == atyp_domain
    then (wrap read_domain_len (read_byte s) >>= λ r. wrap read_domain (read_full r.0 r.1))
    else err (unknown_atyp atyp)

read_addon_bytes : ℕ → Bytes → Result HeaderError (Bytes × Bytes)
read_addon_bytes n s = if ltb 0 n then wrap read_addon (read_full n s) else ok ([], s)

-- The fields behind the version.
read_fields : ℕ → Bytes → Result HeaderError (VlessHeader × Bytes)
read_fields version s₀ = do
  (uuid, s₁) ← wrap read_uuid (read_full 16 s₀)
  (addon_len, s₂) ← wrap read_addon_len (read_byte s₁)
  (addon, s₃) ← read_addon_bytes addon_len s₂
  (cmd, s₄) ← wrap read_cmd (read_byte s₃)
  (port, s₅) ← wrap read_port (read_u16 s₄)
  (atyp, s₆) ← wrap read_atyp (read_byte s₅)
  (addr, s₇) ← read_addr atyp s₆
  ok (
    record {
      version = version;
      uuid = uuid;
      addon = addon;
      cmd = cmd;
      port = port;
      atyp = atyp;
      addr = addr;
    },
    s₇,
  )

-- The header and the bytes that the reader has still to deliver.
unfoldable pub read_header : Bytes → Result HeaderError (VlessHeader × Bytes)
unfolding read_fields read_addr read_addon_bytes
read_header s = do
  (version, s₀) ← wrap read_version (read_byte s)
  if version == 0 then read_fields version s₀ else err (unsupported_version version)

-- `byte(len(h.Addon))` and `byte(len(h.Addr))` wrap; the contents that follow do not.
unfoldable pub write_addr : ℕ → Bytes → Bytes
write_addr atyp addr =
    if atyp == atyp_ipv4 || atyp == atyp_ipv6
    then addr
    else if atyp == atyp_domain
    then (length addr % 256) ∷ addr
    else []

unfoldable pub write_header : VlessHeader → Bytes
write_header h =
    h.version
    ∷ (h.uuid
        ++ ((length h.addon % 256)
            ∷ (h.addon ++ (h.cmd ∷ (put_be16 h.port ++ (h.atyp ∷ write_addr h.atyp h.addr))))))
