-- ===== src/Io/Reads.antt =====
-- A sequence of reads of one source, whatever the source is: a connection, or a wrapper of one that
-- drops, prepends or decodes. A client of a source states its laws and takes what follows from them.
use proxy_balacer.Base.{
  ℕ, ◌≤◌, ◌<◌, ◌≡◌, refl, sym, ◌∙◌, ap, Bytes, List, [], ◌∷◌, ◌++◌, length, All, Result, ok, err,
  panic, append-nil, append_assoc, arith, length-append, ◌⊎◌, subst, inl, inr,
}

-- The room in the buffer and the bytes that have arrived, for each read.
abbrev pub Requests : Type 0
Requests = List (ℕ × ℕ)

abbrev pub Positive : ℕ × ℕ → Type 0
Positive (n, most) = (1 ≤ n) × (1 ≤ most)

unfoldable pub given : {E : Type 0} → Result E Bytes → Bytes
given (ok xs) = xs
given (err e) = []
given panic = []

-- A read that gives an error, and no bytes.
abbrev pub IsEnd : {E : Type 0} → Result E Bytes → Type 0
IsEnd (ok xs) = ⊥
IsEnd (err e) = Unit
IsEnd panic = Unit

module _ {S E : Type 0} (read : ℕ → ℕ → S → Result E Bytes × S) where
  -- What the reads deliver, put together, and the state after them.
  unfoldable pub deliver : Requests → S → Bytes × S
  deliver [] s = ([], s)
  deliver ((n, most) ∷ rs) s =
      let (res, s1) = read n most s in let (xs, s2) = deliver rs s1 in (given res ++ xs, s2)

  -- A read in a state with `p` pending leaves `rest` of it, and a read that can deliver a byte brings
  -- the count `k` of the work left down, unless nothing is pending.
  pub record Step (Valid : S → Bytes → ℕ → Type 0) (n most : ℕ) (s : S) (p : Bytes) (k : ℕ)
      : Type 0 where
    pub rest : Bytes
    pub work : ℕ
    pub valid : Valid (read n most s).1 rest work
    pub splits : given (read n most s).0 ++ rest ≡ p
    pub advances : Positive (n, most) → (work < k) ⊎ (p ≡ [])
    pub ends : IsEnd (read n most s).0 → p ≡ []

  -- A step from what the read computes to.
  pub step_of :
      (Valid : S → Bytes → ℕ → Type 0) (n most : ℕ) (s : S) (p : Bytes) (k : ℕ)
      (res : Result E Bytes) (s1 : S) (p1 : Bytes) (k1 : ℕ)
      → read n most s ≡ (res, s1)
      → Valid s1 p1 k1
      → given res ++ p1 ≡ p
      → (Positive (n, most) → (k1 < k) ⊎ (p ≡ []))
      → (IsEnd res → p ≡ [])
      → Step Valid n most s p k
  step_of Valid n most s p k res s1 p1 k1 e v h a f = record {
    rest = p1;
    work = k1;
    valid = rw e v;
    splits = rw e h;
    advances = a;
    ends = λ q. f (subst IsEnd (ap (λ o. o.0) e) q);
  }

  -- `Valid s p k`: in the state `s`, `p` is pending and `k` bounds the reads that it takes.
  pub record Source (Valid : S → Bytes → ℕ → Type 0) : Type 0 where
    pub step : (n most : ℕ) (s : S) (p : Bytes) (k : ℕ) → Valid s p k → Step Valid n most s p k
    pub bound : (s : S) (p : Bytes) (k : ℕ) → Valid s p k → length p ≤ k

  module _ {Valid : S → Bytes → ℕ → Type 0} (law : Source Valid) where
    -- What the reads have not delivered of `p`.
    unfoldable pub undelivered : (rs : Requests) (s : S) (p : Bytes) (k : ℕ) → Valid s p k → Bytes
    undelivered [] s p k v = p
    undelivered ((n, most) ∷ rs) s p k v =
        let t = law.step n most s p k v in undelivered rs (read n most s).1 t.rest t.work t.valid

    -- The reads deliver a first part of what is pending.
    pub deliver-splits :
        (rs : Requests) (s : S) (p : Bytes) (k : ℕ) (v : Valid s p k)
        → (deliver rs s).0 ++ undelivered rs s p k v ≡ p
    unfolding deliver undelivered
    deliver-splits [] s p k v = refl
    deliver-splits ((n, most) ∷ rs) s p k v =
        let t = law.step n most s p k v in
        append_assoc (given (read n most s).0) _ _
        ∙ ap (λ xs. given (read n most s).0 ++ xs)
            (deliver-splits rs (read n most s).1 t.rest t.work t.valid)
        ∙ t.splits

    empty_rest : (xs ys zs : Bytes) → xs ++ ys ≡ zs → length zs ≡ 0 → length ys ≡ 0
    empty_rest xs ys zs e h =
        let f : length (xs ++ ys) ≡ length zs = ap length e in omega (arith, length-append xs ys)

    deliver-drains :
        (rs : Requests) (s : S) (p : Bytes) (k : ℕ) (v : Valid s p k)
        → All Positive rs
        → k ≤ length rs
        → length (undelivered rs s p k v) ≡ 0
    unfolding undelivered
    deliver-drains [] s p k v ps h = omega (arith, law.bound s p k v)
    deliver-drains ((n, most) ∷ rs) s p k v (q, qs) h =
        let t = law.step n most s p k v in
        elim (t.advances q) [
          | inl j ↦ deliver-drains rs (read n most s).1 t.rest t.work t.valid qs (omega arith)
          | inr e ↦
              empty_rest (deliver rs (read n most s).1).0 _ t.rest
                (deliver-splits rs (read n most s).1 t.rest t.work t.valid)
                (empty_rest (given (read n most s).0) t.rest p t.splits (ap length e))
        ]

    nothing : (xs ys : Bytes) → length ys ≡ 0 → xs ++ ys ≡ xs
    nothing xs [] h = append-nil xs
    nothing xs (y ∷ ys) h = absurd (omega arith)

    -- Enough reads that can deliver a byte each deliver it all.
    pub deliver-all :
        (rs : Requests) (s : S) (p : Bytes) (k : ℕ)
        → Valid s p k
        → All Positive rs
        → k ≤ length rs
        → (deliver rs s).0 ≡ p
    deliver-all rs s p k v ps h =
        sym (nothing (deliver rs s).0 _ (deliver-drains rs s p k v ps h))
        ∙ deliver-splits rs s p k v
