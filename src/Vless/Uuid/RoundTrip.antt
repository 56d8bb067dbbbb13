-- ===== src/Vless/Uuid/RoundTrip.antt =====
-- Printing and parsing UUIDs.
use proxy_balacer.Base.{
  ℕ, ◌+◌, ◌*◌, ◌/◌, ◌%◌, ◌<◌, ◌≡◌, refl, ap, arith, Bytes, IsByte, All, length, drop, ◌++◌, [], ◌∷◌,
  ◌==◌, none, some, take-append-drop, take_all, length-drop, take-append-drop_at, Bool,
}
use proxy_balacer.Vless.Uuid.{
  hex_value, scan_hex2, remove_dashes, parse_pairs, parse_uuid, hex_digit, hex, uuid_to_string,
}

hex_value-digit : (n : ℕ) → n < 16 → hex_value (hex_digit n) ≡ some n
unfolding hex_value hex_digit
hex_value-digit n h = ground arith

scan-hex : (b : ℕ) → IsByte b → scan_hex2 (hex_digit (b / 16)) (hex_digit (b % 16)) ≡ some b
unfolding scan_hex2
scan-hex b h =
    ground (arith, hex_value-digit (b / 16) (omega arith), hex_value-digit (b % 16) (omega arith))

parse_pairs-hex : (i : ℕ) (u : Bytes) → All IsByte u → parse_pairs i (hex u) ≡ (u, none)
unfolding parse_pairs hex
parse_pairs-hex i [] h = refl
parse_pairs-hex i (b ∷ u) (h, hs) =
    rw (scan-hex b h, parse_pairs) (ground (arith, parse_pairs-hex (i + 1) u hs))

remove_dashes-append : (s t : Bytes) → remove_dashes (s ++ t) ≡ remove_dashes s ++ remove_dashes t
unfolding remove_dashes
remove_dashes-append [] t = refl
remove_dashes-append (c ∷ s) t = ground (arith, remove_dashes-append s t)

remove_dashes-dash : (s : Bytes) → remove_dashes (b'-' ∷ s) ≡ remove_dashes s
unfolding remove_dashes
remove_dashes-dash s = refl

hex_digit-ne-dash : (n : ℕ) → (hex_digit n == b'-') ≡ Bool.false
unfolding hex_digit
hex_digit-ne-dash n = ground arith

remove_dashes-hex : (u : Bytes) → remove_dashes (hex u) ≡ hex u
unfolding remove_dashes hex
remove_dashes-hex [] = refl
remove_dashes-hex (b ∷ u) =
    ground (arith, hex_digit-ne-dash (b / 16), hex_digit-ne-dash (b % 16), remove_dashes-hex u)

hex-append : (s t : Bytes) → hex (s ++ t) ≡ hex s ++ hex t
unfolding hex
hex-append [] t = refl
hex-append (b ∷ s) t = ground (arith, hex-append s t)

length-hex : (u : Bytes) → length (hex u) ≡ 2 * length u
unfolding hex
length-hex [] = refl
length-hex (b ∷ u) = omega (arith, length-hex u)

-- The five groups without their dashes are the sixteen bytes.
remove_dashes-to_string : (u : Bytes) → length u ≡ 16 → remove_dashes (uuid_to_string u) ≡ hex u
unfolding uuid_to_string
remove_dashes-to_string u h =
    simp (remove_dashes-append, remove_dashes-dash, remove_dashes-hex, ← hex-append)
      (ap hex (
        rw
          (
            take_all 6 (drop 10 u) (omega (arith, length-drop 10 u)),
            take-append-drop_at 8 2 10 u (omega arith),
            take-append-drop_at 6 2 8 u (omega arith),
            take-append-drop_at 4 2 6 u (omega arith),
          )
          (take-append-drop 4 u)))

pub parse-to_string :
    (u : Bytes) → length u ≡ 16 → All IsByte u → parse_uuid (uuid_to_string u) ≡ (u, none)
unfolding parse_uuid
parse-to_string u h w = rw (remove_dashes-to_string u h, length-hex u, h) (parse_pairs-hex 0 u w)
