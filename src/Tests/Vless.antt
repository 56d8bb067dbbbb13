-- ===== src/Tests/Vless.antt =====
-- VLESS headers and UUIDs on concrete input.
use proxy_balacer.Base.{
  Bytes, codes, [], ◌∷◌, ◌++◌, replicate, none, some, ok, err, ◌≡◌, refl, arith, inr,
}
use proxy_balacer.Io.{read_full, read_byte, read_u16, unexpected_eof}
use proxy_balacer.Vless.Header.{VlessHeader, HeaderError, read_header, write_header, write_addr}
use proxy_balacer.Vless.Header.RoundTrip.{IsWire, read-write, write-read}
use proxy_balacer.Vless.Uuid.{UuidError, parse_uuid, uuid_to_string}
use proxy_balacer.Vless.Uuid.RoundTrip.{parse-to_string}

abbrev sevens : Bytes
sevens = replicate 16 7

-- TCP to `a.io`, port 443.
abbrev domain_header : VlessHeader
domain_header = record {
  version = 0;
  uuid = sevens;
  addon = [];
  cmd = 1;
  port = 443;
  atyp = 2;
  addr = codes "a.io";
}

abbrev domain_bytes : Bytes
domain_bytes = 0 ∷ (sevens ++ (0 ∷ 1 ∷ 1 ∷ 187 ∷ 2 ∷ 4 ∷ codes "a.io"))

domain_written : write_header domain_header ≡ domain_bytes
unfolding write_header write_addr
domain_written = refl

domain_read : read_header (domain_bytes ++ (9 ∷ [])) ≡ ok (domain_header, 9 ∷ [])
unfolding read_header read_full read_byte read_u16
domain_read = refl

short_address :
    read_header (0 ∷ (sevens ++ (0 ∷ 1 ∷ 1 ∷ 187 ∷ 1 ∷ 127 ∷ 0 ∷ [])))
    ≡ err (HeaderError.read_ipv4 unexpected_eof)
unfolding read_header read_full read_byte read_u16
short_address = refl

wrong_version : read_header (1 ∷ []) ≡ err (HeaderError.unsupported_version 1)
unfolding read_header read_byte
wrong_version = refl

parse_lax : parse_uuid (codes "a1b2c3d4-e5f6-7890-abcd-ef123456789g") ≡ (
  0xa1 ∷ 0xb2 ∷ 0xc3 ∷ 0xd4 ∷ 0xe5 ∷ 0xf6 ∷ 0x78 ∷ 0x90 ∷ 0xab ∷ 0xcd ∷ 0xef ∷ 0x12 ∷ 0x34 ∷ 0x56
      ∷ 0x78 ∷ 9 ∷ [],
  none,
)
unfolding parse_uuid
parse_lax = refl

parse_short : parse_uuid (codes "a1") ≡ (replicate 16 0, some (UuidError.bad_length 2))
unfolding parse_uuid
parse_short = refl

printed : uuid_to_string sevens ≡ codes "07070707-0707-0707-0707-070707070707"
unfolding uuid_to_string
printed = refl

domain_header-IsWire : IsWire domain_header
domain_header-IsWire = record {
  version_zero = refl;
  uuid_16 = refl;
  addon_short = omega arith;
  port_u16 = omega arith;
  addr_fits = inr (inr (refl, omega arith));
}

read-write_example :
    read_header (write_header domain_header ++ (9 ∷ [])) ≡ ok (domain_header, 9 ∷ [])
read-write_example = read-write domain_header (9 ∷ []) domain_header-IsWire

write-read_example :
    IsWire domain_header × (domain_bytes ++ (9 ∷ []) ≡ write_header domain_header ++ (9 ∷ []))
write-read_example =
    write-read (domain_bytes ++ (9 ∷ [])) (9 ∷ []) domain_header (omega arith) domain_read

parse-to_string_example : parse_uuid (uuid_to_string sevens) ≡ (sevens, none)
parse-to_string_example = parse-to_string sevens refl (omega arith)
