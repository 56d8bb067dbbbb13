-- ===== src/Base64/RoundTrip.antt =====
-- Encoding bytes and decoding them.
use proxy_balacer.Base.{
  ℕ, ◌+◌, ◌*◌, ◌/◌, ◌%◌, ◌<◌, ◌≡◌, refl, ap, ◌∙◌, Bytes, Bool, true, false, [], ◌∷◌, some, All,
  IsByte, arith, ◌==◌, ◌||◌,
}
use proxy_balacer.Base64.{
  digit_of, value_of, decode_quanta, padded_end, drop_line_ends, decode_std, encode_std,
}

pub value-digit_of : (v : ℕ) → v < 64 → value_of (digit_of v) ≡ some v
unfolding value_of digit_of
value-digit_of v h = ground arith

-- A digit is neither padding nor a line end.
pub digit_of-plain :
    (v : ℕ)
    → v < 64
    → ((digit_of v == b'=') ≡ false) × (((digit_of v == 10) || (digit_of v == 13)) ≡ false)
unfolding digit_of
digit_of-plain v h = ground arith

kept :
    (v : ℕ) (s : Bytes) → v < 64 → drop_line_ends (digit_of v ∷ s) ≡ digit_of v ∷ drop_line_ends s
unfolding drop_line_ends
kept v s h = rw ((digit_of-plain v h).1) refl

kept-pad : (s : Bytes) → drop_line_ends (b'=' ∷ s) ≡ b'=' ∷ drop_line_ends s
unfolding drop_line_ends
kept-pad s = refl

drop-nil : drop_line_ends [] ≡ []
unfolding drop_line_ends
drop-nil = refl

pub drop-encode_std : (s : Bytes) → All IsByte s → drop_line_ends (encode_std s) ≡ encode_std s
unfolding encode_std
drop-encode_std [] h = drop-nil
drop-encode_std (x ∷ []) (p, _) =
    rw
      (
        kept (x / 4) (digit_of (x % 4 * 16) ∷ b'=' ∷ b'=' ∷ []) (omega arith),
        kept (x % 4 * 16) (b'=' ∷ b'=' ∷ []) (omega arith),
        kept-pad (b'=' ∷ []),
        kept-pad [],
        drop-nil,
      )
      refl
drop-encode_std (x ∷ y ∷ []) (p, (q, _)) =
    rw
      (
        kept (x / 4) (digit_of (x % 4 * 16 + y / 16) ∷ digit_of (y % 16 * 4) ∷ b'=' ∷ [])
            (omega arith),
        kept (x % 4 * 16 + y / 16) (digit_of (y % 16 * 4) ∷ b'=' ∷ []) (omega arith),
        kept (y % 16 * 4) (b'=' ∷ []) (omega arith),
        kept-pad [],
        drop-nil,
      )
      refl
drop-encode_std (x ∷ y ∷ z ∷ s) (p, (q, (r, h))) =
    let s0 = encode_std s in
    let d4 = digit_of (z % 64) in
    let d3 = digit_of (y % 16 * 4 + z / 64) in
    let d2 = digit_of (x % 4 * 16 + y / 16) in
    kept (x / 4) (d2 ∷ d3 ∷ d4 ∷ s0) (omega arith)
    ∙ ap (◌∷◌ (digit_of (x / 4))) (
        kept (x % 4 * 16 + y / 16) (d3 ∷ d4 ∷ s0) (omega arith)
        ∙ ap (◌∷◌ d2) (
            kept (y % 16 * 4 + z / 64) (d4 ∷ s0) (omega arith)
            ∙ ap (◌∷◌ d3) (kept (z % 64) s0 (omega arith) ∙ ap (◌∷◌ d4) (drop-encode_std s h))))

one_byte :
    (x : ℕ)
    → x < 256
    → decode_quanta true (digit_of (x / 4) ∷ digit_of (x % 4 * 16) ∷ b'=' ∷ b'=' ∷ [])
      ≡ some (x ∷ [])
unfolding decode_quanta padded_end
one_byte x p =
    rw (value-digit_of (x / 4) (omega arith), value-digit_of (x % 4 * 16) (omega arith))
      (let e : x / 4 * 4 + x % 4 * 16 / 16 ≡ x = omega arith in rw e refl)

two_bytes :
    (x y : ℕ)
    → x < 256
    → y < 256
    → decode_quanta true
        (digit_of (x / 4) ∷ digit_of (x % 4 * 16 + y / 16) ∷ digit_of (y % 16 * 4) ∷ b'=' ∷ [])
      ≡ some (x ∷ y ∷ [])
unfolding decode_quanta padded_end
two_bytes x y p q =
    rw
      (
        value-digit_of (x / 4) (omega arith),
        value-digit_of (x % 4 * 16 + y / 16) (omega arith),
        value-digit_of (y % 16 * 4) (omega arith),
        (digit_of-plain (y % 16 * 4) (omega arith)).0,
      )
      (let e : x / 4 * 4 + (x % 4 * 16 + y / 16) / 16 ≡ x = omega arith in
        let f : (x % 4 * 16 + y / 16) % 16 * 16 + y % 16 * 4 / 4 ≡ y = omega arith in
        rw (e, f) refl)

three_bytes :
    (padded : Bool) (x y z : ℕ) (s t : Bytes)
    → x < 256
    → y < 256
    → z < 256
    → decode_quanta padded s ≡ some t
    → decode_quanta padded (
        digit_of (x / 4)
        ∷ digit_of (x % 4 * 16 + y / 16)
        ∷ digit_of (y % 16 * 4 + z / 64)
        ∷ digit_of (z % 64)
        ∷ s)
      ≡ some (x ∷ y ∷ z ∷ t)
unfolding decode_quanta
three_bytes padded x y z s t p q r h =
    rw
      (
        value-digit_of (x / 4) (omega arith),
        value-digit_of (x % 4 * 16 + y / 16) (omega arith),
        value-digit_of (y % 16 * 4 + z / 64) (omega arith),
        value-digit_of (z % 64) (omega arith),
        h,
        (digit_of-plain (z % 64) (omega arith)).0,
      )
      (let e : x / 4 * 4 + (x % 4 * 16 + y / 16) / 16 ≡ x = omega arith in
        let f : (x % 4 * 16 + y / 16) % 16 * 16 + (y % 16 * 4 + z / 64) / 4 ≡ y = omega arith in
        let g : (y % 16 * 4 + z / 64) % 4 * 64 + z % 64 ≡ z = omega arith in
        rw (e, f, g) (ground arith))

decode-nil : decode_quanta true [] ≡ some []
unfolding decode_quanta
decode-nil = refl

quanta-encode_std : (s : Bytes) → All IsByte s → decode_quanta true (encode_std s) ≡ some s
unfolding encode_std
quanta-encode_std [] h = decode-nil
quanta-encode_std (x ∷ []) (p, _) = one_byte x p
quanta-encode_std (x ∷ y ∷ []) (p, (q, _)) = two_bytes x y p q
quanta-encode_std (x ∷ y ∷ z ∷ s) (p, (q, (r, h))) =
    three_bytes true x y z (encode_std s) s p q r (quanta-encode_std s h)

-- Decoding what was encoded gives the bytes back.
pub decode-encode_std : (s : Bytes) → All IsByte s → decode_std (encode_std s) ≡ some s
unfolding decode_std
decode-encode_std s h = rw (drop-encode_std s h) (quanta-encode_std s h)
