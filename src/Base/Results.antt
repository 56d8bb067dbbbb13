-- ===== src/Base/Results.antt =====
-- What a Go call ends in: a value, an error value, or a run-time panic.
use mathlib.Core.Path.{◌≡◌, refl}

pub data Result {ℓ κ} (E : Type κ) (A : Type ℓ) : Type (ℓ ⊔ κ) where
  ok : A → Result E A
  err : E → Result E A
  panic : Result E A

infixl 5 ◌>>=◌
abbrev pub ◌>>=◌ {ℓ κ ι} :
    {E : Type ι} {A : Type ℓ} {B : Type κ} → Result E A → (A → Result E B) → Result E B
ok a >>= f = f a
err e >>= f = err e
panic >>= f = panic

-- `if err != nil { return fmt.Errorf(…, err) }`: the error is wrapped, the rest passes through.
abbrev pub wrap {ℓ κ ι} : {E : Type ι} {F : Type κ} {A : Type ℓ} → (E → F) → Result E A → Result F A
wrap f (ok a) = ok a
wrap f (err e) = err (f e)
wrap f panic = panic

-- The steps of a chain that succeeds.
pub bind-ok {ℓ κ ι τ} :
    {E : Type ι} {A : Type ℓ} {B : Type κ} {P : Type τ} (m : Result E A) (k : A → Result E B)
    {b : B}
    → (m >>= k) ≡ ok b
    → ((a : A) → m ≡ ok a → k a ≡ ok b → P)
    → P
bind-ok (ok a) k h goal = goal a refl h
bind-ok (err e) k h goal = absurd (cc)
bind-ok panic k h goal = absurd (cc)

pub wrap-bind {ℓ κ ι τ υ} :
    {E : Type ι} {F : Type κ} {A : Type ℓ} {B : Type τ} {P : Type υ} (f : E → F) (m : Result E A)
    (k : A → Result F B) {b : B}
    → (wrap f m >>= k) ≡ ok b
    → ((a : A) → m ≡ ok a → k a ≡ ok b → P)
    → P
wrap-bind f (ok a) k h goal = goal a refl h
wrap-bind f (err e) k h goal = absurd (cc)
wrap-bind f panic k h goal = absurd (cc)
