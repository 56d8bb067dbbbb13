-- ===== src/Base64.antt =====
-- Text as the program cuts and decodes it with Go's packages `strings` and `encoding/base64`.
--
-- `trim_space` knows all white space of Unicode, in UTF-8. Both decoders drop line ends, and both give
-- nothing for a text that Go refuses.
pub mod Trim
pub mod RoundTrip
use proxy_balacer.Base.{
  ℕ, zero, suc, ◌+◌, ◌-◌, ◌*◌, ◌/◌, ◌%◌, Bytes, Bool, true, false, ◌&&◌, ◌||◌, [], ◌∷◌, ◌++◌,
  Option, none, some, ltb, leb, ◌==◌, if◌then◌else◌,
}

-- The white space of ASCII.
unfoldable pub is_blank : ℕ → Bool
is_blank c = (leb 9 c && leb c 13) || c == 32

-- The other white space, with two bytes in UTF-8: U+0085 and U+00A0.
unfoldable pub is_blank_2 : ℕ → ℕ → Bool
is_blank_2 c d = (c == 0xC2) && ((d == 0x85) || (d == 0xA0))

-- With three bytes: U+1680, U+2000 to U+200A, U+2028, U+2029, U+202F, U+205F and U+3000.
unfoldable pub is_blank_3 : ℕ → ℕ → ℕ → Bool
is_blank_3 c d e =
    ((c == 0xE1) && ((d == 0x9A) && (e == 0x80)))
    || (((c == 0xE2)
          && (((d == 0x80)
                && ((leb 0x80 e && leb e 0x8A) || ((e == 0xA8) || ((e == 0xA9) || (e == 0xAF)))))
              || ((d == 0x81) && (e == 0x9F))))
        || ((c == 0xE3) && ((d == 0x80) && (e == 0x80))))

-- The number of bytes of the white space at the start of a text, 0 where there is none.
unfoldable pub blank_at : Bytes → ℕ
unfolding is_blank is_blank_2 is_blank_3
blank_at [] = 0
blank_at (c ∷ []) = if is_blank c then 1 else 0
blank_at (c ∷ d ∷ []) = if is_blank c then 1 else if is_blank_2 c d then 2 else 0
blank_at (c ∷ d ∷ e ∷ s) =
    if is_blank c then 1 else if is_blank_2 c d then 2 else if is_blank_3 c d e then 3 else 0

-- With the number of bytes that are still to be left out.
unfoldable pub trim_from : ℕ → Bytes → Bytes
unfolding blank_at
trim_from n [] = []
trim_from (suc n) (c ∷ s) = trim_from n s
trim_from zero (c ∷ s) = elim (blank_at (c ∷ s)) [ zero ↦ c ∷ s | suc n ↦ trim_from n s ]

unfoldable pub trim_left : Bytes → Bytes
unfolding trim_from
trim_left s = trim_from 0 s

-- The text is one character of white space.
unfoldable pub is_one_blank : Bytes → Bool
unfolding is_blank is_blank_2 is_blank_3
is_one_blank [] = false
is_one_blank (c ∷ []) = is_blank c
is_one_blank (c ∷ d ∷ []) = is_blank_2 c d
is_one_blank (c ∷ d ∷ e ∷ []) = is_blank_3 c d e
is_one_blank (c ∷ d ∷ e ∷ f ∷ s) = false

unfoldable pub drop_if_blank : ℕ → Bytes → Bytes
unfolding is_one_blank
drop_if_blank c s = if is_one_blank (c ∷ s) then [] else c ∷ s

-- What is left of the text after a byte shows whether the byte begins a character of white space at the end.
unfoldable pub trim_right : Bytes → Bytes
unfolding drop_if_blank
trim_right [] = []
trim_right (c ∷ s) = drop_if_blank c (trim_right s)

-- `strings.TrimSpace`.
unfoldable pub trim_space : Bytes → Bytes
unfolding trim_left trim_right
trim_space s = trim_right (trim_left s)

-- The alphabet of `StdEncoding`.
unfoldable pub digit_of : ℕ → ℕ
digit_of v =
    if ltb v 26
    then v + 65
    else if ltb v 52
    then v + 71
    else if ltb v 62
    then v - 4
    else if v == 62
    then b'+'
    else b'/'

unfoldable pub value_of : ℕ → Option ℕ
value_of c =
    if leb b'A' c && leb c b'Z'
    then some (c - 65)
    else if leb b'a' c && leb c b'z'
    then some (c - 71)
    else if leb b'0' c && leb c b'9'
    then some (c + 4)
    else if c == b'+'
    then some 62
    else if c == b'/'
    then some 63
    else none

abbrev two_digits : Option ℕ → Option ℕ → Option Bytes
two_digits (some a) (some b) = some ((a * 4 + b / 16) ∷ [])
two_digits (some a) none = none
two_digits none b = none

abbrev three_digits : Option ℕ → Option ℕ → Option ℕ → Option Bytes
three_digits (some a) (some b) (some c) = some ((a * 4 + b / 16) ∷ (b % 16 * 16 + c / 4) ∷ [])
three_digits (some a) (some b) none = none
three_digits (some a) none c = none
three_digits none b c = none

abbrev four_digits : Option ℕ → Option ℕ → Option ℕ → Option ℕ → Option Bytes → Option Bytes
four_digits (some a) (some b) (some c) (some d) (some s) =
    some ((a * 4 + b / 16) ∷ (b % 16 * 16 + c / 4) ∷ (c % 4 * 64 + d) ∷ s)
four_digits (some a) (some b) (some c) (some d) none = none
four_digits (some a) (some b) (some c) none s = none
four_digits (some a) (some b) none d s = none
four_digits (some a) none c d s = none
four_digits none b c d s = none

-- The last quantum of a padded text, with nothing behind it.
unfoldable pub padded_end : ℕ → ℕ → ℕ → Bytes → Option Bytes
unfolding value_of
padded_end a b c [] =
    if c == b'='
    then two_digits (value_of a) (value_of b)
    else three_digits (value_of a) (value_of b) (value_of c)
padded_end a b c (x ∷ s) = none

unfoldable pub decode_quanta : Bool → Bytes → Option Bytes
unfolding value_of padded_end
decode_quanta padded [] = some []
decode_quanta padded (a ∷ []) = none
decode_quanta padded (a ∷ b ∷ []) = if padded then none else two_digits (value_of a) (value_of b)
decode_quanta padded (a ∷ b ∷ c ∷ []) =
    if padded then none else three_digits (value_of a) (value_of b) (value_of c)
decode_quanta padded (a ∷ b ∷ c ∷ d ∷ s) =
    let rest =
      four_digits (value_of a) (value_of b) (value_of c) (value_of d) (decode_quanta padded s) in
    if padded && d == b'=' then padded_end a b c s else rest

unfoldable pub drop_line_ends : Bytes → Bytes
drop_line_ends [] = []
drop_line_ends (c ∷ s) =
    let rest = drop_line_ends s in if (c == 10) || (c == 13) then rest else c ∷ rest

-- `base64.StdEncoding.DecodeString`, and that of `RawStdEncoding`.
unfoldable pub decode_std : Bytes → Option Bytes
unfolding decode_quanta drop_line_ends
decode_std s = decode_quanta true (drop_line_ends s)

unfoldable pub decode_raw : Bytes → Option Bytes
unfolding decode_quanta drop_line_ends
decode_raw s = decode_quanta false (drop_line_ends s)

-- `base64.StdEncoding.EncodeToString`.
unfoldable pub encode_std : Bytes → Bytes
unfolding digit_of
encode_std [] = []
encode_std (x ∷ []) = digit_of (x / 4) ∷ digit_of (x % 4 * 16) ∷ b'=' ∷ b'=' ∷ []
encode_std (x ∷ y ∷ []) =
    digit_of (x / 4) ∷ digit_of (x % 4 * 16 + y / 16) ∷ digit_of (y % 16 * 4) ∷ b'=' ∷ []
encode_std (x ∷ y ∷ z ∷ s) =
    digit_of (x / 4)
    ∷ digit_of (x % 4 * 16 + y / 16)
    ∷ digit_of (y % 16 * 4 + z / 64)
    ∷ digit_of (z % 64)
    ∷ encode_std s
