-- ===== src/Base/Decimal.antt =====
-- `%d` of a number that is not negative, as bytes.
use Prim.Native.Nat.{ℕ, zero, suc, ◌+◌, ◌-◌, ◌*◌, ◌/◌, ◌%◌, ◌<◌, ◌≤◌}
use mathlib.Core.Path.{◌≡◌, refl, ap, sym, ◌∙◌}
use mathlib.Core.List.{[], ◌∷◌, ◌++◌}
use native.Mathlib.Omega.{arith}
use mathlib.Core.Logic.{inl, inr}
use proxy_balacer.Base.Lists.{All, All-append, length, length-append}
use proxy_balacer.Base.Tests.{ltb, if◌then◌else◌, Bool-cases}
use proxy_balacer.Base.Text.{Bytes}

decimal_loop : ℕ → ℕ → Bytes
decimal_loop zero n = []
decimal_loop (suc f) n =
    let front = decimal_loop f (n / 10) in (if ltb n 10 then [] else front) ++ ((n % 10 + 48) ∷ [])

-- A number has no more digits than its value plus one, so the fuel is enough.
unfoldable pub decimal : ℕ → Bytes
unfolding decimal_loop
decimal n = decimal_loop (suc n) n

-- The number that a row of digits spells, behind one that spells `acc`.
unfoldable pub value_from : ℕ → Bytes → ℕ
value_from acc [] = acc
value_from acc (d ∷ s) = value_from (acc * 10 + (d - 48)) s

value_from-append :
    (acc : ℕ) (s : Bytes) (d : ℕ)
    → value_from acc (s ++ (d ∷ [])) ≡ value_from acc s * 10 + (d - 48)
unfolding value_from
value_from-append acc [] d = refl
value_from-append acc (x ∷ s) d = value_from-append (acc * 10 + (x - 48)) s d

value-decimal_loop : (f n : ℕ) → n < f → value_from 0 (decimal_loop f n) ≡ n
unfolding decimal_loop value_from
value-decimal_loop zero n h = elim h [ ]
value-decimal_loop (suc f) n h = ground (
  arith,
  value_from-append 0 (decimal_loop f (n / 10)) (n % 10 + 48),
  value-decimal_loop f (n / 10),
)

-- Different numbers are printed differently.
pub decimal-injective : (m n : ℕ) → decimal m ≡ decimal n → m ≡ n
unfolding decimal
decimal-injective m n e =
    sym (value-decimal_loop (suc m) m (omega arith))
    ∙ ap (value_from 0) e
    ∙ value-decimal_loop (suc n) n (omega arith)

abbrev pub IsDigit : ℕ → Type 0
IsDigit d = (48 ≤ d) × (d ≤ 57)

loop-IsDigit : (f n : ℕ) → All IsDigit (decimal_loop f n)
unfolding decimal_loop
loop-IsDigit zero n = tt
loop-IsDigit (suc f) n = elim (Bool-cases (ltb n 10)) [
  | inl e ↦ rw e ((omega arith, omega arith), tt)
  | inr e ↦ rw e (
      All-append IsDigit (decimal_loop f (n / 10)) ((n % 10 + 48) ∷ []) (loop-IsDigit f (n / 10))
        ((omega arith, omega arith), tt))
]

pub decimal-IsDigit : (n : ℕ) → All IsDigit (decimal n)
unfolding decimal
decimal-IsDigit n = loop-IsDigit (suc n) n

pub length-decimal : (n : ℕ) → 1 ≤ length (decimal n)
unfolding decimal decimal_loop
length-decimal n =
    omega
      (arith, length-append (if ltb n 10 then [] else decimal_loop n (n / 10)) ((n % 10 + 48) ∷ []))

pub value-decimal : (n : ℕ) → value_from 0 (decimal n) ≡ n
unfolding decimal
value-decimal n = value-decimal_loop (suc n) n (omega arith)

decimal_example : decimal 8443 ≡ b'8' ∷ b'4' ∷ b'4' ∷ b'3' ∷ []
unfolding decimal
decimal_example = refl
