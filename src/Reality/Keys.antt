-- ===== src/Reality/Keys.antt =====
-- reality.go: the text of keys and short identifiers.
pub mod RoundTrip
use proxy_balacer.Base.{
  ℕ, zero, suc, ◌+◌, ◌-◌, ◌*◌, ◌%◌, Bytes, Bool, true, false, ◌&&◌, [], ◌∷◌, ◌++◌, Option, none,
  some, length, take, replicate, min, leb, ◌==◌, ◌=ᵇ◌, if◌then◌else◌, codes,
}
use proxy_balacer.Base64.{trim_space, decode_std}

-- `strings.ReplaceAll` of one byte by another.
unfoldable pub replace_all : ℕ → ℕ → Bytes → Bytes
replace_all old new [] = []
replace_all old new (c ∷ s) = (if c == old then new else c) ∷ replace_all old new s

-- The padding that the length asks for.
unfoldable pub pad : Bytes → Bytes
pad s =
    if length s % 4 == 2
    then s ++ (b'=' ∷ b'=' ∷ [])
    else if length s % 4 == 3
    then s ++ (b'=' ∷ [])
    else s

unfoldable pub base64_to_bytes : Bytes → Option Bytes
unfolding replace_all pad
base64_to_bytes s = decode_std (pad (replace_all b'_' b'/' (replace_all b'-' b'+' (trim_space s))))

unfoldable pub hex_digit_value : ℕ → Option ℕ
hex_digit_value c =
    if leb b'0' c && leb c b'9'
    then some (c - 48)
    else if leb b'a' c && leb c b'f'
    then some (c - 87)
    else if leb b'A' c && leb c b'F'
    then some (c - 55)
    else none

abbrev join_hex : Option ℕ → Option ℕ → Option Bytes → Option Bytes
join_hex (some a) (some b) (some s) = some ((a * 16 + b) ∷ s)
join_hex (some a) (some b) none = none
join_hex (some a) none s = none
join_hex none b s = none

-- `hex.DecodeString`, with nothing for a text that it refuses.
unfoldable pub hex_decode : Bytes → Option Bytes
unfolding hex_digit_value
hex_decode [] = some []
hex_decode (a ∷ []) = none
hex_decode (a ∷ b ∷ s) = join_hex (hex_digit_value a) (hex_digit_value b) (hex_decode s)

abbrev or_else : Option Bytes → Option Bytes → Option Bytes
or_else (some s) other = some s
or_else none other = other

-- At most eight bytes copied into an array of eight zeros.
unfoldable pub copy_8 : Option Bytes → Bytes
copy_8 none = replicate 8 0
copy_8 (some s) = take 8 s ++ replicate (8 - length s) 0

-- The short identifier of a configuration: hexadecimal, else base64, else zeros.
unfoldable pub short_id : Bytes → Bytes
unfolding copy_8
short_id s = if s =ᵇ [] then replicate 8 0 else copy_8 (or_else (hex_decode s) (base64_to_bytes s))
