-- ===== src/Reality/Keys/RoundTrip.antt =====
-- Keys in the URL alphabet without padding, as x25519 keys are printed.
use proxy_balacer.Base.{
  ℕ, ◌+◌, ◌-◌, ◌*◌, ◌/◌, ◌%◌, ◌<◌, ◌≡◌, refl, ap, Bytes, [], ◌∷◌, some, All, IsByte, length, arith,
  ltb, ◌==◌, if◌then◌else◌,
}
use proxy_balacer.Base64.{is_blank, digit_of, encode_std}
use proxy_balacer.Base64.Trim.{Plain, trim-Plain}
use proxy_balacer.Base64.RoundTrip.{decode-encode_std}
use proxy_balacer.Reality.Keys.{replace_all, pad, base64_to_bytes}

-- The URL alphabet.
unfoldable pub url_digit : ℕ → ℕ
url_digit v =
    if ltb v 26
    then v + 65
    else if ltb v 52
    then v + 71
    else if ltb v 62
    then v - 4
    else if v == 62
    then b'-'
    else b'_'

unfoldable pub encode_url : Bytes → Bytes
encode_url [] = []
encode_url (x ∷ []) = url_digit (x / 4) ∷ url_digit (x % 4 * 16) ∷ []
encode_url (x ∷ y ∷ []) =
    url_digit (x / 4) ∷ url_digit (x % 4 * 16 + y / 16) ∷ url_digit (y % 16 * 4) ∷ []
encode_url (x ∷ y ∷ z ∷ s) =
    url_digit (x / 4)
    ∷ url_digit (x % 4 * 16 + y / 16)
    ∷ url_digit (y % 16 * 4 + z / 64)
    ∷ url_digit (z % 64)
    ∷ encode_url s

abbrev to_std : Bytes → Bytes
to_std s = replace_all b'_' b'/' (replace_all b'-' b'+' s)

url_digit-Plain : (v : ℕ) → Plain (url_digit v)
unfolding is_blank url_digit
url_digit-Plain v = (ground arith, ground arith)

std_byte :
    (v : ℕ)
    → v < 64
    → (let c = if url_digit v == b'-' then b'+' else url_digit v in if c == b'_' then b'/' else c)
      ≡ digit_of v
unfolding url_digit digit_of
std_byte v h = ground arith

to_std-digit : (v : ℕ) (s : Bytes) → v < 64 → to_std (url_digit v ∷ s) ≡ digit_of v ∷ to_std s
unfolding replace_all
to_std-digit v s h = ap (λ c. c ∷ to_std s) (std_byte v h)

encode_url-Plain : (s : Bytes) → All Plain (encode_url s)
unfolding encode_url
encode_url-Plain [] = tt
encode_url-Plain (x ∷ []) = (url_digit-Plain (x / 4), (url_digit-Plain (x % 4 * 16), tt))
encode_url-Plain (x ∷ y ∷ []) = (
  url_digit-Plain (x / 4),
  (url_digit-Plain (x % 4 * 16 + y / 16), (url_digit-Plain (y % 16 * 4), tt)),
)
encode_url-Plain (x ∷ y ∷ z ∷ s) = (
  url_digit-Plain (x / 4),
  (
    url_digit-Plain (x % 4 * 16 + y / 16),
    (url_digit-Plain (y % 16 * 4 + z / 64), (url_digit-Plain (z % 64), encode_url-Plain s)),
  ),
)

-- The length of a text and the padding that it gets.
four_more : (a b c d : ℕ) (s t : Bytes) → pad s ≡ t → pad (a ∷ b ∷ c ∷ d ∷ s) ≡ a ∷ b ∷ c ∷ d ∷ t
unfolding pad
four_more a b c d s t h =
    let e : (4 + length s) % 4 ≡ length s % 4 = omega arith in ground (arith, h, e)

pad_0 : pad (to_std []) ≡ []
unfolding pad replace_all
pad_0 = refl

pad_2 : (a b : ℕ) → pad (a ∷ b ∷ to_std []) ≡ a ∷ b ∷ b'=' ∷ b'=' ∷ []
unfolding pad replace_all
pad_2 a b = refl

pad_3 : (a b c : ℕ) → pad (a ∷ b ∷ c ∷ to_std []) ≡ a ∷ b ∷ c ∷ b'=' ∷ []
unfolding pad replace_all
pad_3 a b c = refl

padded_std : (s : Bytes) → All IsByte s → pad (to_std (encode_url s)) ≡ encode_std s
unfolding encode_url encode_std
padded_std [] h = pad_0
padded_std (x ∷ []) (p, _) =
    rw
      (
        to_std-digit (x / 4) (url_digit (x % 4 * 16) ∷ []) (omega arith),
        to_std-digit (x % 4 * 16) [] (omega arith),
      )
      (pad_2 _ _)
padded_std (x ∷ y ∷ []) (p, (q, _)) =
    rw
      (
        to_std-digit (x / 4) (url_digit (x % 4 * 16 + y / 16) ∷ url_digit (y % 16 * 4) ∷ [])
            (omega arith),
        to_std-digit (x % 4 * 16 + y / 16) (url_digit (y % 16 * 4) ∷ []) (omega arith),
        to_std-digit (y % 16 * 4) [] (omega arith),
      )
      (pad_3 _ _ _)
padded_std (x ∷ y ∷ z ∷ s) (p, (q, (r, h))) =
    rw
      (
        to_std-digit (x / 4)
            (url_digit (x % 4 * 16 + y / 16)
              ∷ url_digit (y % 16 * 4 + z / 64)
              ∷ url_digit (z % 64)
              ∷ encode_url s)
            (omega arith),
        to_std-digit (x % 4 * 16 + y / 16)
            (url_digit (y % 16 * 4 + z / 64) ∷ url_digit (z % 64) ∷ encode_url s) (omega arith),
        to_std-digit (y % 16 * 4 + z / 64) (url_digit (z % 64) ∷ encode_url s) (omega arith),
        to_std-digit (z % 64) (encode_url s) (omega arith),
      )
      (four_more _ _ _ _ (to_std (encode_url s)) (encode_std s) (padded_std s h))

-- A key printed in the URL alphabet without padding is decoded to its bytes.
pub base64_to_bytes-encode_url :
    (s : Bytes) → All IsByte s → base64_to_bytes (encode_url s) ≡ some s
unfolding base64_to_bytes
base64_to_bytes-encode_url s h =
    rw (trim-Plain (encode_url s) (encode_url-Plain s), padded_std s h) (decode-encode_std s h)
