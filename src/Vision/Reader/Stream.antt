-- ===== src/Vision/Reader/Stream.antt =====
-- `VisionReader` once the framing has ended.
use proxy_balacer.Base.{
  ℕ, ◌+◌, ◌≤◌, ◌<◌, ◌≡◌, refl, sym, ◌∙◌, ap, Bytes, Bool, Bool-cases, [], ◌∷◌, ◌++◌, length, take,
  drop, ltb, min, arith, length-append, length-drop, take-append-drop, append_assoc, drop-drop, ◌⊎◌,
  inl, inr, ok, zero, suc, subst,
}
use proxy_balacer.Io.{read_some}
use proxy_balacer.Io.Reads.{given, Positive, IsEnd}
use proxy_balacer.Vision.Reader.{VisionReader, read, read_raw}

-- What the reader has still to deliver once the framing has ended.
unfoldable pub pending : VisionReader → Bytes
pending v = drop v.buf_pos v.buf ++ v.reader

abbrev pub Raw : VisionReader → Type 0
Raw v = v.raw_mode ≡ Bool.true

pub take-append-drop-min : (n : ℕ) (xs : Bytes) → take n xs ++ drop (min n (length xs)) xs ≡ xs
take-append-drop-min zero xs = let e : min 0 (length xs) ≡ 0 = omega arith in rw e refl
take-append-drop-min (suc n) [] = let e : min (suc n) 0 ≡ 0 = omega arith in rw e refl
take-append-drop-min (suc n) (x ∷ xs) =
    let e : min (suc n) (suc (length xs)) ≡ suc (min n (length xs)) = omega arith in
    rw e (ap (◌∷◌ x) (take-append-drop-min n xs))

pub read-buffered :
    (n most : ℕ) (v : VisionReader)
    → ltb v.buf_pos (length v.buf) ≡ Bool.true
    → read n most v ≡ (
      ok (take n (drop v.buf_pos v.buf)),
      record v { buf_pos = v.buf_pos + min n (length (drop v.buf_pos v.buf)) },
    )
unfolding read
read-buffered n most v h = rw h refl

read-through :
    (n most : ℕ) (v : VisionReader)
    → ltb v.buf_pos (length v.buf) ≡ Bool.false
    → Raw v
    → read n most v ≡ read_raw v (read_some n most v.reader)
unfolding read
read-through n most v h r = rw (h, r) refl

pub drop_past : (n : ℕ) (xs : Bytes) → ltb n (length xs) ≡ Bool.false → drop n xs ≡ []
drop_past zero [] h = refl
drop_past zero (x ∷ xs) h = absurd (ground arith)
drop_past (suc n) [] h = refl
drop_past (suc n) (x ∷ xs) h = drop_past n xs (ground arith)

splits_raw :
    (n most : ℕ) (v : VisionReader) (s : Bytes)
    → drop v.buf_pos v.buf ≡ []
    → v.reader ≡ s
    → let r = read_raw v (read_some n most s) in given r.0 ++ pending r.1 ≡ pending v
unfolding read_raw read_some given pending
splits_raw n most v [] h e = rw (h, e) refl
splits_raw n most v (b ∷ s) h e = rw (h, e) (take-append-drop (min n most) (b ∷ s))

advances_raw :
    (n most : ℕ) (v : VisionReader) (s : Bytes)
    → Positive (n, most)
    → v.reader ≡ s
    → drop v.buf_pos v.buf ≡ []
    → (length (pending (read_raw v (read_some n most s)).1) < length (pending v)) ⊎ (pending v ≡ [])
unfolding read_raw read_some pending
advances_raw n most v [] p e h = inr (rw (h, e) refl)
advances_raw n most v (b ∷ s) (p, q) e h =
    inl (rw (h, e) (omega (arith, length-drop (min n most) (b ∷ s))))

Raw-keeps :
    (n most : ℕ) (v : VisionReader) (s : Bytes) → Raw v → Raw (read_raw v (read_some n most s)).1
unfolding read_raw read_some
Raw-keeps n most v [] r = r
Raw-keeps n most v (b ∷ s) r = r

pub keeps_lem : (n most : ℕ) (v : VisionReader) → Raw v → Raw (read n most v).1
keeps_lem n most v r = elim (Bool-cases (ltb v.buf_pos (length v.buf))) [
  | inl h ↦ rw (read-buffered n most v h) r
  | inr h ↦ rw (read-through n most v h r) (Raw-keeps n most v v.reader r)
]

-- What a buffered read leaves in the buffer.
pub drop_after :
    (n : ℕ) (v : VisionReader)
    → drop (v.buf_pos + min n (length (drop v.buf_pos v.buf))) v.buf
      ≡ drop (min n (length (drop v.buf_pos v.buf))) (drop v.buf_pos v.buf)
drop_after n v = sym (drop-drop v.buf_pos (min n (length (drop v.buf_pos v.buf))) v.buf)

pub splits_lem :
    (n most : ℕ) (v : VisionReader)
    → Raw v
    → given (read n most v).0 ++ pending (read n most v).1 ≡ pending v
unfolding given pending
splits_lem n most v r = elim (Bool-cases (ltb v.buf_pos (length v.buf))) [
  | inl h ↦
      rw (read-buffered n most v h, drop_after n v)
        (sym (append_assoc (take n (drop v.buf_pos v.buf)) _ v.reader)
          ∙ ap (λ t. t ++ v.reader) (take-append-drop-min n (drop v.buf_pos v.buf)))
  | inr h ↦
      rw (read-through n most v h r)
        (splits_raw n most v v.reader (drop_past v.buf_pos v.buf h) refl)
]

pub buffered_advances :
    (n : ℕ) (xs ys : Bytes)
    → 1 ≤ n
    → 1 ≤ length xs
    → length (drop (min n (length xs)) xs ++ ys) < length (xs ++ ys)
buffered_advances n xs ys p q = omega (
  arith,
  length-append (drop (min n (length xs)) xs) ys,
  length-append xs ys,
  length-drop (min n (length xs)) xs,
)

pub advances_lem :
    (n most : ℕ) (v : VisionReader)
    → Positive (n, most)
    → Raw v
    → (length (pending (read n most v).1) < length (pending v)) ⊎ (pending v ≡ [])
unfolding pending
advances_lem n most v p r = elim (Bool-cases (ltb v.buf_pos (length v.buf))) [
  | inl h ↦ inl (
      rw (read-buffered n most v h, drop_after n v)
        (buffered_advances n (drop v.buf_pos v.buf) v.reader p.0
          (ground (arith, length-drop v.buf_pos v.buf))))
  | inr h ↦
      rw (read-through n most v h r)
        (advances_raw n most v v.reader p refl (drop_past v.buf_pos v.buf h))
]

read_some_ends :
    (n most : ℕ) (v : VisionReader) (s : Bytes)
    → drop v.buf_pos v.buf ≡ []
    → v.reader ≡ s
    → IsEnd (read_raw v (read_some n most s)).0
    → pending v ≡ []
unfolding read_raw read_some pending
read_some_ends n most v [] h e i = rw (h, e) refl
read_some_ends n most v (b ∷ s) h e i = absurd i

pub ends_lem : (n most : ℕ) (v : VisionReader) → Raw v → IsEnd (read n most v).0 → pending v ≡ []
ends_lem n most v r i = elim (Bool-cases (ltb v.buf_pos (length v.buf))) [
  | inl h ↦ absurd (subst IsEnd (ap (λ o. o.0) (read-buffered n most v h)) i)
  | inr h ↦
      read_some_ends n most v v.reader (drop_past v.buf_pos v.buf h) refl
        (subst IsEnd (ap (λ o. o.0) (read-through n most v h r)) i)
]
