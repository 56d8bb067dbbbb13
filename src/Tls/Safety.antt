-- ===== src/Tls/Safety.antt =====
-- `extract_sni` on arbitrary input: no index is out of range, and the loop ends.
use proxy_balacer.Base.{
  ℕ, zero, suc, ◌+◌, ◌-◌, ◌<◌, ◌≤◌, ◌≡◌, ◌≢◌, refl, arith, min, [], ◌∷◌, Bool-cases, inl, inr,
  Bytes, Bool, true, false, ◌&&◌, not, length, take, drop, get_elem?, ltb, leb, ◌==◌, if◌then◌else◌,
  Option, none, some, Result, ok, err, panic, ◌>>=◌, be16,
}
use proxy_balacer.Tls.{
  SniError, stuck, not_found, at, u16_at, slice, name_at, extension_at, extension_loop, session_end,
  ciphers_end, compression_end, extensions, hello_start, extract_sni,
}

get_elem?-some : (s : Bytes) (i : ℕ) → i < length s → (b : ℕ) × (get_elem? s i ≡ some b)
get_elem?-some [] i h = absurd (omega arith)
get_elem?-some (x ∷ s) zero h = (x, refl)
get_elem?-some (x ∷ s) (suc i) h = get_elem?-some s i (omega arith)

at-ok : (s : Bytes) (i : ℕ) → i < length s → (b : ℕ) × (at s i ≡ ok b)
unfolding at
at-ok s i h = let (b, e) = get_elem?-some s i h in (b, rw (e, at))

u16_at-ok : (s : Bytes) (i : ℕ) → i + 1 < length s → (v : ℕ) × (u16_at s i ≡ ok v)
unfolding u16_at
u16_at-ok s i h =
    let (a, p) = at-ok s i (omega arith) in
    let (b, q) = at-ok s (i + 1) h in (be16 a b, rw p (rw q))

slice-ok : (s : Bytes) (i j : ℕ) → i ≤ j → j ≤ length s → (v : Bytes) × (slice s i j ≡ ok v)
unfolding slice
slice-ok s i j h k = (take (j - i) (drop i s), ground arith)

err-injective {ℓ} :
    {A : Type ℓ} {e f : SniError} → ◌≡◌ {A = Result SniError A} (err e) (err f) → e ≡ f
err-injective p = cc

-- Neither of the two ways in which a run could fail to be a run of the Go function.
abbrev IsSafe {ℓ} : {A : Type ℓ} → Result SniError A → Type 0
IsSafe (ok a) = Unit
IsSafe (err e) = e ≢ stuck
IsSafe panic = ⊥

bind-IsSafe {ℓ κ} :
    {A : Type ℓ} {B : Type κ} (m : Result SniError A) (f : A → Result SniError B)
    → IsSafe m
    → ((a : A) → m ≡ ok a → IsSafe (f a))
    → IsSafe (m >>= f)
bind-IsSafe (ok a) f h k = k a refl
bind-IsSafe (err e) f h k = h
bind-IsSafe panic f h k = h

IsSafe-ne {ℓ} : {A : Type ℓ} (r : Result SniError A) → IsSafe r → (r ≢ panic) × (r ≢ err stuck)
IsSafe-ne (ok a) h = (λ e. cc, λ e. cc)
IsSafe-ne (err e) h = (λ p. cc, λ p. h (err-injective p))
IsSafe-ne panic h = absurd h

if-IsSafe {ℓ} :
    {A : Type ℓ} (b : Bool) (x y : Result SniError A)
    → (b ≡ true → IsSafe x)
    → (b ≡ false → IsSafe y)
    → IsSafe (if b then x else y)
if-IsSafe true x y h k = h refl
if-IsSafe false x y h k = k refl

-- A step that yields a value may be taken as that value.
from-ok {ℓ κ} :
    {A : Type ℓ} {B : Type κ} (m : Result SniError A) (f : A → Result SniError B)
    → ((a : A) × (m ≡ ok a))
    → ((a : A) → IsSafe (f a))
    → IsSafe (m >>= f)
from-ok m f (a, e) k = rw e (k a)

name_at-ok :
    (s : Bytes) (pos end : ℕ)
    → pos + 6 ≤ end
    → end ≤ length s
    → (r : Option Bytes) × (name_at s pos end ≡ ok r)
unfolding name_at
name_at-ok s pos end h k =
    let (b, p) = at-ok s pos (omega arith) in
    let (n, q) = u16_at-ok s (pos + 3) (omega arith) in
    elim (Bool-cases (ltb 0 n && leb (pos + 5 + n) end)) [
      | inl fits ↦
          let (v, r) = slice-ok s (pos + 5) (pos + 5 + n) (omega arith) (ground arith) in
          (if b == 0 then some v else none, ground arith)
      | inr over ↦ (none, ground arith)
    ]

extension_at-ok :
    (s : Bytes) (pos end : ℕ)
    → pos + 4 ≤ end
    → end ≤ length s
    → (r : Option Bytes) × (n : ℕ) × (extension_at s pos end ≡ ok (r, pos + 4 + n))
unfolding extension_at
extension_at-ok s pos end h k =
    let (t, p) = u16_at-ok s pos (omega arith) in
    let (n, q) = u16_at-ok s (pos + 2) (omega arith) in
    elim (Bool-cases (t == 0x0000 && ltb 5 n && leb (pos + 4 + n) end)) [
      | inl fits ↦
          let (v, r) = name_at-ok s (pos + 4) end (ground arith) k in (v, n, rw (p, q, fits, r))
      | inr skip ↦ (none, n, rw (p, q, skip))
    ]

-- The next round, or the end.
abbrev next_round : ℕ → Bytes → ℕ → Option Bytes × ℕ → Result SniError Bytes
next_round fuel s end r = elim r.0 [ some name ↦ ok name | none ↦ extension_loop fuel s r.1 end ]

next_round-IsSafe :
    (fuel : ℕ) (s : Bytes) (end : ℕ) (r : Option Bytes) (pos : ℕ)
    → IsSafe (extension_loop fuel s pos end)
    → IsSafe (next_round fuel s end (r, pos))
next_round-IsSafe fuel s end none pos h = h
next_round-IsSafe fuel s end (some name) pos h = tt

loop_more :
    (fuel : ℕ) (s : Bytes) (pos end : ℕ) (r : Option Bytes × ℕ)
    → leb (pos + 4) end ≡ true
    → extension_at s pos end ≡ ok r
    → extension_loop (suc fuel) s pos end ≡ next_round fuel s end r
unfolding extension_loop
loop_more fuel s pos end r h e = rw (h, e, extension_loop)

loop_done :
    (fuel : ℕ) (s : Bytes) (pos end : ℕ)
    → leb (pos + 4) end ≡ false
    → extension_loop (suc fuel) s pos end ≡ err not_found
unfolding extension_loop
loop_done fuel s pos end h = rw (h, extension_loop)

-- The fuel covers what is left of the input.
extension_loop-IsSafe :
    (fuel : ℕ) (s : Bytes) (pos end : ℕ)
    → end ≤ length s
    → end < fuel + pos
    → IsSafe (extension_loop (suc fuel) s pos end)
extension_loop-IsSafe zero s pos end h m = rw (loop_done 0 s pos end (ground arith)) (λ x. cc)
extension_loop-IsSafe (suc fuel) s pos end h m = elim (Bool-cases (leb (pos + 4) end)) [
  | inl more ↦
      let (r, n, e) = extension_at-ok s pos end (ground arith) h in
      rw (loop_more (suc fuel) s pos end (r, pos + 4 + n) more e) (
        next_round-IsSafe (suc fuel) s end r (pos + 4 + n)
          (extension_loop-IsSafe fuel s (pos + 4 + n) end h (omega arith)))
  | inr done ↦ rw (loop_done (suc fuel) s pos end done) (λ x. cc)
]

extensions-IsSafe : (s : Bytes) (pos : ℕ) → IsSafe (extensions s pos)
unfolding extensions
extensions-IsSafe s pos =
    if-IsSafe (ltb (length s) (pos + 2)) _ _ (λ _ x. cc)
      λ long. from-ok (u16_at s pos) _ (u16_at-ok s pos (ground arith)) λ n.
        extension_loop-IsSafe (length s) s (pos + 2) (min (pos + 2 + n) (length s)) (omega arith)
          (omega arith)

session_end-IsSafe : (s : Bytes) (pos : ℕ) → IsSafe (session_end s pos)
unfolding session_end
session_end-IsSafe s pos =
    if-IsSafe (ltb (length s) (pos + 1)) _ _ (λ _ x. cc)
      λ long. from-ok (at s pos) _ (at-ok s pos (ground arith)) λ n. tt

ciphers_end-IsSafe : (s : Bytes) (pos : ℕ) → IsSafe (ciphers_end s pos)
unfolding ciphers_end
ciphers_end-IsSafe s pos =
    if-IsSafe (ltb (length s) (pos + 2)) _ _ (λ _ x. cc)
      λ long. from-ok (u16_at s pos) _ (u16_at-ok s pos (ground arith)) λ n. tt

compression_end-IsSafe : (s : Bytes) (pos : ℕ) → IsSafe (compression_end s pos)
unfolding compression_end
compression_end-IsSafe s pos =
    if-IsSafe (ltb (length s) (pos + 1)) _ _ (λ _ x. cc)
      λ long. from-ok (at s pos) _ (at-ok s pos (ground arith)) λ n. tt

hello_start-IsSafe : (s : Bytes) → IsSafe (hello_start s)
unfolding hello_start
hello_start-IsSafe s =
    if-IsSafe (ltb (length s) 5) _ _ (λ _ x. cc)
      λ h₅. from-ok (at s 0) _ (at-ok s 0 (ground arith)) λ t.
        if-IsSafe (not (t == 0x16)) _ _ (λ _ x. cc)
          λ _.
            if-IsSafe (ltb (length s) 9) _ _ (λ _ x. cc)
              λ h₉. from-ok (at s 5) _ (at-ok s 5 (ground arith)) λ m.
                if-IsSafe (not (m == 0x01)) _ _ (λ _ x. cc)
                  λ _. from-ok (at s 6) _ (at-ok s 6 (ground arith)) λ _.
                    from-ok (at s 7) _ (at-ok s 7 (ground arith)) λ _.
                      from-ok (at s 8) _ (at-ok s 8 (ground arith))
                        λ _. if-IsSafe (ltb (length s) (9 + 2 + 32)) _ _ (λ _ x. cc) λ _. tt

-- On any bytes the Go function returns: it never indexes or slices out of range, and its loop over the
-- extensions never uses up the fuel, which is one round for each byte and one more.
pub extract_sni_total : (s : Bytes) → (extract_sni s ≢ panic) × (extract_sni s ≢ err stuck)
unfolding extract_sni
extract_sni_total s = IsSafe-ne (extract_sni s) safe
  where
    safe : IsSafe (extract_sni s)
    safe = bind-IsSafe (hello_start s) _ (hello_start-IsSafe s) λ a _.
        bind-IsSafe (session_end s a) _ (session_end-IsSafe s a) λ b _.
          bind-IsSafe (ciphers_end s b) _ (ciphers_end-IsSafe s b) λ c _.
            bind-IsSafe (compression_end s c) _ (compression_end-IsSafe s c)
              λ d _. extensions-IsSafe s d
