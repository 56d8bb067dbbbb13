-- ===== src/Database/Rows.antt =====
-- Which rows the operations on a table leave.
use proxy_balacer.Base.{
  ℕ, Bool, Bool-cases, true, false, ◌||◌, List, [], ◌∷◌, ◌++◌, ◌==◌, ◌≡◌, refl, All, arith, inl,
  inr,
}
use proxy_balacer.Database.{reject, change}

module _ {A : Type 0} where
  pub All-reject :
      (P : A → Type 0) (p : A → Bool) (xs : List A)
      → All P xs
      → All (λ x. P x × (p x ≡ false)) (reject p xs)
  unfolding reject
  All-reject P p [] h = tt
  All-reject P p (x ∷ xs) (h, hs) = elim (Bool-cases (p x)) [
    | inl e ↦ rw e (All-reject P p xs hs)
    | inr e ↦ rw e ((h, e), All-reject P p xs hs)
  ]

  pub All-map {κ} : (P Q : A → Type κ) → ((x : A) → P x → Q x) → (xs : List A) → All P xs → All Q xs
  All-map P Q f [] h = tt
  All-map P Q f (x ∷ xs) (h, hs) = (f x h, All-map P Q f xs hs)

  module _ (key : A → ℕ) where
    -- Whether a table has the key.
    unfoldable pub has_key : ℕ → List A → Bool
    has_key i [] = false
    has_key i (x ∷ xs) = (key x == i) || has_key i xs

    pub has_key-append :
        (i : ℕ) (xs ys : List A) → has_key i xs ≡ true → has_key i (xs ++ ys) ≡ true
    unfolding has_key
    has_key-append i [] ys h = absurd (cc)
    has_key-append i (x ∷ xs) ys h = ground (arith, has_key-append i xs ys)

    pub has_key-last : (x : A) (xs : List A) → has_key (key x) (xs ++ (x ∷ [])) ≡ true
    unfolding has_key
    has_key-last x [] = ground arith
    has_key-last x (y ∷ xs) = ground (arith, has_key-last x xs)

    pub has_key-change :
        (i : ℕ) (p : A → Bool) (f : A → A) (xs : List A)
        → ((x : A) → key (f x) ≡ key x)
        → has_key i (change p f xs) ≡ has_key i xs
    unfolding has_key change
    has_key-change i p f [] h = refl
    has_key-change i p f (x ∷ xs) h = elim (Bool-cases (p x)) [
      | inl e ↦ rw (e, h x, has_key-change i p f xs h) refl
      | inr e ↦ rw (e, has_key-change i p f xs h) refl
    ]

    pub has_key-reject :
        (i n : ℕ) (p : A → Bool) (xs : List A)
        → ((x : A) → p x ≡ (key x == n))
        → (i == n) ≡ false
        → has_key i xs ≡ true
        → has_key i (reject p xs) ≡ true
    unfolding has_key reject
    has_key-reject i n p [] h d e = absurd (cc)
    has_key-reject i n p (x ∷ xs) h d e = ground (arith, h x, has_key-reject i n p xs h d)
