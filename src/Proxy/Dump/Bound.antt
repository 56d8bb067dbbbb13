-- ===== src/Proxy/Dump/Bound.antt =====
-- When the header fits the array of 64 bytes.
use proxy_balacer.Base.{
  ℕ, ◌+◌, ◌%◌, ◌/◌, ◌≤◌, ◌<◌, ◌≡◌, refl, ap, sym, Bytes, [], ◌∷◌, ◌++◌, length, ltb, leb, Result,
  ok, panic, ◌>>=◌, arith, length-append, put_be16, Bool-cases, inl, inr, append_assoc, append-nil,
  true, subst,
}
use proxy_balacer.Vless.Header.{VlessHeader}
use proxy_balacer.Proxy.Dump.{put, copy_in, copy_addon, dump}

-- A step appends bytes where they fit the array, and panics where they do not.
Fits : Result (Unit {0}) Bytes → Bytes → Type 0
Fits r s = (length s ≤ 64 → r ≡ ok s) × (64 < length s → r ≡ panic)

-- A step that appends `xs` to what has fitted.
Appends : (Bytes → Result (Unit {0}) Bytes) → Bytes → Type 0
Appends k xs = (s : Bytes) → length s ≤ 64 → Fits (k s) (s ++ xs)

then-Fits :
    (r : Result (Unit {0}) Bytes) (k : Bytes → Result (Unit {0}) Bytes) (s xs : Bytes)
    → Fits r s
    → Appends k xs
    → length (s ++ xs) ≤ 64
    → (r >>= k) ≡ ok (s ++ xs)
unfolding Fits Appends
then-Fits r k s xs (a, b) c h =
    let l : length s ≤ 64 = omega (arith, length-append s xs) in rw (a l) ((c s l).0 h)

then-panic :
    (r : Result (Unit {0}) Bytes) (k : Bytes → Result (Unit {0}) Bytes) (s xs : Bytes)
    → Fits r s
    → Appends k xs
    → 64 < length (s ++ xs)
    → (r >>= k) ≡ panic
unfolding Fits Appends
then-panic r k s xs (a, b) c h = elim (Bool-cases (leb (length s) 64)) [
  | inl e ↦ let l : length s ≤ 64 = ground arith in rw (a l) ((c s l).1 h)
  | inr e ↦ let l : 64 < length s = ground arith in rw (b l) refl
]

both_lem :
    (r : Result (Unit {0}) Bytes) (k : Bytes → Result (Unit {0}) Bytes) (s xs : Bytes)
    → Fits r s
    → Appends k xs
    → Fits (r >>= k) (s ++ xs)
unfolding Fits
both_lem r k s xs a c = (then-Fits r k s xs a c, then-panic r k s xs a c)

-- A step and those after it.
then_lem :
    (f k : Bytes → Result (Unit {0}) Bytes) (ys xs : Bytes)
    → Appends f ys
    → Appends k xs
    → Appends (λ s. f s >>= k) (ys ++ xs)
unfolding Appends
then_lem f k ys xs a c s l =
    subst (Fits (f s >>= k)) (append_assoc s ys xs) (both_lem (f s) k (s ++ ys) xs (a s l) c)

put_lem : (b : ℕ) → Appends (put b) (b ∷ [])
unfolding Fits Appends put
put_lem b s l =
    (λ h. ground (arith, length-append s (b ∷ [])), λ h. ground (arith, length-append s (b ∷ [])))

copy_lem : (xs : Bytes) → Appends (copy_in xs) xs
unfolding Fits Appends copy_in
copy_lem xs s l = (λ h. ground (arith, length-append s xs), λ h. ground (arith, length-append s xs))

addon_lem : (xs : Bytes) → Appends (copy_addon xs) xs
unfolding Fits Appends copy_addon
addon_lem [] s l =
    (λ h. ap ok (sym (append-nil s)), λ h. absurd (omega (arith, length-append s [])))
addon_lem (x ∷ xs) s l =
    let e : ltb 0 (length (x ∷ xs)) ≡ true = ground arith in rw e (copy_lem (x ∷ xs) s l)

-- What is written when it fits.
unfoldable pub dump_bytes : VlessHeader → Bytes
dump_bytes h =
    h.version
    ∷ (h.uuid
        ++ ((length h.addon % 256)
            ∷ (h.addon
                ++ (h.cmd ∷ (put_be16 h.port ++ (h.atyp ∷ (length h.addr % 256) ∷ h.addr))))))

fits_lem : (h : VlessHeader) → Fits (dump h) (dump_bytes h)
unfolding dump dump_bytes Appends
fits_lem h =
    then_lem (put h.version) _ (h.version ∷ []) _ (put_lem h.version)
      (then_lem (copy_in h.uuid) _ h.uuid _ (copy_lem h.uuid) (
        then_lem (put (length h.addon % 256)) _ ((length h.addon % 256) ∷ []) _
          (put_lem (length h.addon % 256))
          (then_lem (copy_addon h.addon) _ h.addon _ (addon_lem h.addon) (
            then_lem (put h.cmd) _ (h.cmd ∷ []) _ (put_lem h.cmd) (
              then_lem (put (h.port / 256 % 256)) _ ((h.port / 256 % 256) ∷ []) _
                (put_lem (h.port / 256 % 256))
                (then_lem (put (h.port % 256)) _ ((h.port % 256) ∷ []) _ (put_lem (h.port % 256)) (
                  then_lem (put h.atyp) _ (h.atyp ∷ []) _ (put_lem h.atyp) (
                    then_lem (put (length h.addr % 256)) (copy_in h.addr)
                      ((length h.addr % 256) ∷ []) h.addr (put_lem (length h.addr % 256))
                      (copy_lem h.addr)))))))))
      [] (omega arith)

length-dump_bytes :
    (h : VlessHeader)
    → length h.uuid ≡ 16
    → length (dump_bytes h) ≡ 23 + length h.addon + length h.addr
unfolding dump_bytes
length-dump_bytes h u =
    let tail = h.cmd ∷ (put_be16 h.port ++ (h.atyp ∷ (length h.addr % 256) ∷ h.addr)) in
    omega (
      arith,
      length-append h.uuid ((length h.addon % 256) ∷ (h.addon ++ tail)),
      length-append h.addon tail,
    )

-- The header of a UUID of sixteen bytes is logged as it is laid out, with a length before every address,
-- where its addon and its address have 41 bytes at most together; where they have more, the index runs
-- out of the array and the call panics.
pub dump_panics :
    (h : VlessHeader)
    → length h.uuid ≡ 16
    → (length h.addon + length h.addr ≤ 41 → dump h ≡ ok (dump_bytes h))
      × (41 < length h.addon + length h.addr → dump h ≡ panic)
unfolding Fits
dump_panics h u =
    let (a, b) = fits_lem h in
    (λ k. a (omega (arith, length-dump_bytes h u)), λ k. b (omega (arith, length-dump_bytes h u)))
