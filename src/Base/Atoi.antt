-- ===== src/Base/Atoi.antt =====
-- Go's `int` as an integer, `strconv.Atoi` with its error dropped as the program does, and `%d`.
use Prim.Native.Nat.{ℕ, zero, suc, ◌+◌, ◌-◌, ◌*◌, ◌^◌, min}
use mathlib.Core.Bool.{Bool, true, false, ◌&&◌}
use mathlib.Core.List.{[], ◌∷◌}
use mathlib.Core.Option.{Option, none, some}
use Prim.Native.Nat.{◌<◌, ◌≤◌}
use mathlib.Core.Path.{◌≡◌, refl, ap, ◌∙◌}
use native.Mathlib.Omega.{arith}
use proxy_balacer.Base.Lists.{All, length}
use proxy_balacer.Base.Decimal.{
  decimal, IsDigit, decimal-IsDigit, length-decimal, value-decimal, value_from,
}
use proxy_balacer.Base.Tests.{leb, le→leb, ◌==◌, if◌then◌else◌}
use proxy_balacer.Base.Text.{Bytes}

-- `negsuc n` is -(n + 1).
pub data ℤ : Type 0 where
  pos : ℕ → ℤ
  negsuc : ℕ → ℤ

-- A sign and a size.
abbrev pub with_sign : Bool → ℕ → ℤ
with_sign false n = pos n
with_sign true zero = pos 0
with_sign true (suc n) = negsuc n

unfoldable pub print_int : ℤ → Bytes
print_int (pos n) = decimal n
print_int (negsuc n) = b'-' ∷ decimal (suc n)

digits_from : ℕ → Bytes → Option ℕ
digits_from acc [] = some acc
digits_from acc (c ∷ s) =
    let rest = digits_from (acc * 10 + (c - 48)) s in
    if leb b'0' c && leb c b'9' then rest else none

digits : Bytes → Option ℕ
digits [] = none
digits (c ∷ s) = digits_from 0 (c ∷ s)

-- A value out of range is cut to the nearest one in it; what is no number gives 0.
signed : Bool → Option ℕ → ℤ
signed negative none = pos 0
signed true (some n) = with_sign true (min n (2 ^ 63))
signed false (some n) = with_sign false (min n (2 ^ 63 - 1))

unfoldable pub atoi : Bytes → ℤ
unfolding digits_from digits signed
atoi [] = pos 0
atoi (c ∷ s) =
    if c == b'-'
    then signed true (digits s)
    else if c == b'+'
    then signed false (digits s)
    else signed false (digits (c ∷ s))

digits-value : (acc : ℕ) (s : Bytes) → All IsDigit s → digits_from acc s ≡ some (value_from acc s)
unfolding digits_from value_from
digits-value acc [] h = refl
digits-value acc (c ∷ s) ((a, b), h) =
    rw (le→leb b'0' c a, le→leb c b'9' b, digits-value (acc * 10 + (c - 48)) s h) refl

signed_lem : (n : ℕ) → n < 2 ^ 63 → signed false (some n) ≡ pos n
unfolding signed
signed_lem n h = let e : min n (2 ^ 63 - 1) ≡ n = omega arith in ap pos e

digits_lem :
    (s : Bytes) (n : ℕ) → 1 ≤ length s → All IsDigit s → value_from 0 s ≡ n → digits s ≡ some n
unfolding digits
digits_lem [] n k h e = absurd (omega arith)
digits_lem (c ∷ s) n k h e = digits-value 0 (c ∷ s) h ∙ ap some e

unsigned : (c : ℕ) (s : Bytes) → IsDigit c → atoi (c ∷ s) ≡ signed false (digits (c ∷ s))
unfolding atoi
unsigned c s (a, b) = ground arith

atoi-digits :
    (s : Bytes) (n : ℕ)
    → 1 ≤ length s
    → All IsDigit s
    → value_from 0 s ≡ n
    → n < 2 ^ 63
    → atoi s ≡ pos n
atoi-digits [] n k h e l = absurd (omega arith)
atoi-digits (c ∷ s) n k (d, h) e l =
    unsigned c s d ∙ ap (signed false) (digits_lem (c ∷ s) n k (d, h) e) ∙ signed_lem n l

-- A number that fits an `int` is read as it was printed.
pub atoi-decimal : (n : ℕ) → n < 2 ^ 63 → atoi (decimal n) ≡ pos n
atoi-decimal n h =
    atoi-digits (decimal n) n (length-decimal n) (decimal-IsDigit n) (value-decimal n) h
