-- ===== src/Vless/Uuid.antt =====
-- vless.go, lines 30-49: UUIDs as text.
-- `fmt.Sscanf` with `%02x` and `fmt.Sprintf` with `%0Nx` are written out as the standard library runs
-- them on these arguments.
pub mod RoundTrip
use proxy_balacer.Base.{
  ℕ, zero, suc, ◌+◌, ◌-◌, ◌*◌, ◌/◌, ◌%◌, Bytes, Bool, ◌&&◌, ◌||◌, length, take, drop, replicate,
  ◌++◌, List, [], ◌∷◌, leb, ltb, ◌==◌, if◌then◌else◌, Option, none, some,
}

-- The `Sscanf` alphabet of a hexadecimal digit.
hex_value : ℕ → Option ℕ
hex_value c =
    if leb b'0' c && leb c b'9'
    then some (c - 48)
    else if leb b'a' c && leb c b'f'
    then some (c - 87)
    else if leb b'A' c && leb c b'F'
    then some (c - 55)
    else none

-- The spaces of `Sscanf` that are one byte long and do not end its input with an error.
is_scan_space : ℕ → Bool
is_scan_space c = c == 9 || c == 11 || c == 12 || c == 13 || c == 32

-- `fmt.Sscanf(ab, "%02x", &v)` on two bytes: leading space is skipped, and scanning stops without an
-- error at the first byte behind a digit that is no digit.
scan_hex2 : ℕ → ℕ → Option ℕ
unfolding hex_value is_scan_space
scan_hex2 a b = elim (hex_value a) [
  | some x ↦ elim (hex_value b) [ some y ↦ some (x * 16 + y) | none ↦ some x ]
  | none ↦ if is_scan_space a then hex_value b else none
]

-- `strings.ReplaceAll(s, "-", "")`.
remove_dashes : Bytes → Bytes
remove_dashes [] = []
remove_dashes (c ∷ s) = if c == b'-' then remove_dashes s else c ∷ remove_dashes s

pub data UuidError : Type 0 where
  bad_length bad_byte : ℕ → UuidError

-- The loop from byte `i` on. Where a byte fails, it and those behind it keep their zero.
parse_pairs : ℕ → Bytes → Bytes × Option UuidError
parse_pairs i [] = ([], none)
parse_pairs i (a ∷ []) = ([], none)
parse_pairs i (a ∷ b ∷ s) =
    let rest = parse_pairs (i + 1) s in
    elim (scan_hex2 a b) [
      | some v ↦ (v ∷ rest.0, rest.1)
      | none ↦ (replicate (16 - i) 0, some (bad_byte i))
    ]

-- The array and the error, both, since a caller may drop the error.
unfoldable pub parse_uuid : Bytes → Bytes × Option UuidError
unfolding scan_hex2 remove_dashes parse_pairs
parse_uuid s =
    let hex = remove_dashes s in
    if length hex == 32 then parse_pairs 0 hex else (replicate 16 0, some (bad_length (length hex)))

hex_digit : ℕ → ℕ
hex_digit n = if ltb n 10 then n + 48 else n + 87

-- `%x` of a byte slice. A width that the digits fill adds nothing.
hex : Bytes → Bytes
hex [] = []
hex (b ∷ s) = hex_digit (b / 16) ∷ hex_digit (b % 16) ∷ hex s

unfoldable pub uuid_to_string : Bytes → Bytes
unfolding hex_digit hex
uuid_to_string u =
    hex (take 4 u)
    ++ (b'-'
        ∷ (hex (take 2 (drop 4 u))
            ++ (b'-'
                ∷ (hex (take 2 (drop 6 u))
                    ++ (b'-' ∷ (hex (take 2 (drop 8 u)) ++ (b'-' ∷ hex (take 6 (drop 10 u)))))))))
