-- ===== src/Io/Copy.antt =====
-- `io.Copy` from a source of bytes to a sink of them.
use proxy_balacer.Base.{
  ℕ, ◌+◌, ◌-◌, ◌*◌, ◌≤◌, ◌≡◌, refl, sym, ◌∙◌, ap, subst, Bytes, Bool, true, List, [], ◌∷◌, ◌++◌,
  length, All, Result, ok, err, panic, append-nil, append_assoc, arith, length-append, inl, inr,
  if◌then◌else◌, min, take_all, le→leb,
}
use proxy_balacer.Io.{Conn, conn_write}
use proxy_balacer.Io.Reads.{given, IsEnd, Source}

abbrev pub copy_buffer : ℕ
copy_buffer = 32 * 1024

-- The bytes that have arrived at each read; the copy is seen for as many reads.
abbrev pub Arrivals : Type 0
Arrivals = List ℕ

-- `net.Conn.Write` of a slice for which there is room.
pub write_fits :
    (p : Bytes) (c : Conn)
    → length p ≤ c.room
    → conn_write p c ≡ ((length p, true), record { sent = c.sent ++ p; room = c.room - length p })
unfolding conn_write
write_fits p c h =
    let e : min (length p) c.room ≡ length p = omega arith in
    rw (e, le→leb (length p) c.room h, take_all c.room p h) refl

-- A write of a slice, not empty, for which there is room succeeds. `Holds w o n`: the sink has taken `o`
-- and has room for `n` bytes.
pub record Sink {W : Type 0} (write : Bytes → W → (ℕ × Bool) × W) (Holds : W → Bytes → ℕ → Type 0)
    : Type 0 where
  pub takes :
      (w : W) (o : Bytes) (n x : ℕ) (p : Bytes)
      → Holds w o n
      → length (x ∷ p) ≤ n
      → (w1 : W) × (write (x ∷ p) w ≡ ((length (x ∷ p), true), w1))
        × Holds w1 (o ++ x ∷ p) (n - length (x ∷ p))

abbrev pub ConnHolds : Conn → Bytes → ℕ → Type 0
ConnHolds c o n = (c.sent ≡ o) × (n ≤ c.room)

conn_takes :
    (c : Conn) (o : Bytes) (n x : ℕ) (p : Bytes)
    → ConnHolds c o n
    → length (x ∷ p) ≤ n
    → (c1 : Conn) × (conn_write (x ∷ p) c ≡ ((length (x ∷ p), true), c1))
      × ConnHolds c1 (o ++ x ∷ p) (n - length (x ∷ p))
conn_takes c o n x p (e, r) h = (
  record { sent = c.sent ++ x ∷ p; room = c.room - length (x ∷ p) },
  write_fits (x ∷ p) c (omega arith),
  (ap (λ s. s ++ x ∷ p) e, omega arith),
)

pub conn_sink : Sink conn_write ConnHolds
conn_sink = record { takes = conn_takes }

module _ {S E W : Type 0} (read : ℕ → ℕ → S → Result E Bytes × S)
    (write : Bytes → W → (ℕ × Bool) × W) where
  -- The count of the bytes written, the source and the sink, after one read and what follows it.
  unfoldable pub copied : Result E Bytes → (W → (ℕ × S) × W) → S → W → (ℕ × S) × W
  copied (ok []) again s w = again w
  copied (ok (x ∷ xs)) again s w =
      let ((n, good), w1) = write (x ∷ xs) w in
      let ((total, s1), w2) = again w1 in if good then ((n + total, s1), w2) else ((n, s), w1)
  copied (err e) again s w = ((0, s), w)
  copied panic again s w = ((0, s), w)

  unfoldable pub copy : Arrivals → S → W → (ℕ × S) × W
  unfolding copied
  copy [] s w = ((0, s), w)
  copy (m ∷ ms) s w = let (res, s1) = read copy_buffer m s in copied res (copy ms s1) s1 w

  module _ {Holds : W → Bytes → ℕ → Type 0} (sink : Sink write Holds) where
    -- A copy that wrote `p`, all of it.
    Copied : (ℕ × S) × W → Bytes → Bytes → ℕ → Type 0
    Copied r p o n = (r.0.0 ≡ length p) × Holds r.1 (o ++ p) (n - length p)

    nothing-Copied :
        (s : S) (w : W) (p o : Bytes) (n : ℕ)
        → Holds w o n
        → length p ≡ 0
        → Copied ((0, s), w) p o n
    unfolding Copied
    nothing-Copied s w [] o n h e =
        let e : n - 0 ≡ n = omega arith in
        (
          refl,
          subst (λ m. Holds w (o ++ []) m) (sym e)
              (subst (λ q. Holds w q n) (sym (append-nil o)) h),
        )
    nothing-Copied s w (x ∷ p) o n h e = absurd (omega arith)

    copied_lem :
        (res : Result E Bytes) (again : W → (ℕ × S) × W) (s : S) (w : W) (p rest o : Bytes) (n : ℕ)
        → given res ++ rest ≡ p
        → (IsEnd res → p ≡ [])
        → Holds w o n
        → length p ≤ n
        → ((w1 : W) (q : Bytes) (m : ℕ)
            → Holds w1 q m
            → length rest ≤ m
            → Copied (again w1) rest q m)
        → Copied (copied res again s w) p o n
    unfolding copied given Copied
    copied_lem (ok []) again s w p rest o n e f h l k =
        subst (λ q. Copied (again w) q o n) e (k w o n h (omega (arith, ap length e)))
    copied_lem (ok (x ∷ xs)) again s w p rest o n e f h l k =
        let le : length (x ∷ xs ++ rest) ≡ length p = ap length e in
        let la = length-append (x ∷ xs) rest in
        let (w1, d, g) = sink.takes w o n x xs h (omega (arith, le, la)) in
        let (a, b) = k w1 (o ++ x ∷ xs) (n - length (x ∷ xs)) g (omega (arith, le, la)) in
        let room : (n - length (x ∷ xs)) - length rest ≡ n - length p = omega (arith, le, la) in
        let whole : (o ++ x ∷ xs) ++ rest ≡ o ++ p =
          append_assoc o (x ∷ xs) rest ∙ ap (λ q. o ++ q) e in
        rw d (
          ap (λ t. length (x ∷ xs) + t) a ∙ sym la ∙ le,
          subst (λ m. Holds (again w1).1 (o ++ p) m) room
              (subst (λ q. Holds (again w1).1 q ((n - length (x ∷ xs)) - length rest)) whole b),
        )
    copied_lem (err r) again s w p rest o n e f h l k =
        nothing-Copied s w p o n h (ap length (f tt))
    copied_lem panic again s w p rest o n e f h l k = nothing-Copied s w p o n h (ap length (f tt))

    module _ {Valid : S → Bytes → ℕ → Type 0} (law : Source read Valid) where
      -- Of a source with nothing pending, nothing is copied.
      copy_nothing :
          (ms : Arrivals) (s : S) (p : Bytes) (k : ℕ) (w : W) (o : Bytes) (n : ℕ)
          → Valid s p k
          → Holds w o n
          → length p ≡ 0
          → Copied (copy ms s w) p o n
      unfolding copy
      copy_nothing [] s p k w o n v h e = nothing-Copied s w p o n h e
      copy_nothing (m ∷ ms) s p k w o n v h e =
          let t = law.step copy_buffer m s p k v in
          let z : length t.rest ≡ 0 =
            omega
              (arith, ap length t.splits, length-append (given (read copy_buffer m s).0) t.rest) in
          copied_lem (read copy_buffer m s).0 (copy ms (read copy_buffer m s).1)
            (read copy_buffer m s).1 w p t.rest o n t.splits t.ends h (omega arith)
            (λ w1 q j g i.
              copy_nothing ms (read copy_buffer m s).1 t.rest t.work w1 q j t.valid g z)

      copies :
          (ms : Arrivals) (s : S) (p : Bytes) (k : ℕ) (w : W) (o : Bytes) (n : ℕ)
          → Valid s p k
          → Holds w o n
          → All (◌≤◌ 1) ms
          → k ≤ length ms
          → length p ≤ n
          → Copied (copy ms s w) p o n
      unfolding copy
      copies [] s p k w o n v g ps h r =
          nothing-Copied s w p o n g (omega (arith, law.bound s p k v))
      copies (m ∷ ms) s p k w o n v g (q, qs) h r =
          let t = law.step copy_buffer m s p k v in
          elim (t.advances (omega arith, q)) [
            | inl j ↦
                copied_lem (read copy_buffer m s).0 (copy ms (read copy_buffer m s).1)
                  (read copy_buffer m s).1 w p t.rest o n t.splits t.ends g r
                  (λ w1 u i f l.
                    copies ms (read copy_buffer m s).1 t.rest t.work w1 u i t.valid f qs
                      (omega arith) l)
            | inr e ↦ copy_nothing (m ∷ ms) s p k w o n v g (ap length e)
          ]

      -- Enough reads, each with a byte arrived, copy all that is pending, where there is room for it.
      pub copy_lem :
          (ms : Arrivals) (s : S) (p : Bytes) (k : ℕ) (w : W) (o : Bytes) (n : ℕ)
          → Valid s p k
          → Holds w o n
          → All (◌≤◌ 1) ms
          → k ≤ length ms
          → length p ≤ n
          → ((copy ms s w).0.0 ≡ length p) × Holds (copy ms s w).1 (o ++ p) (n - length p)
      unfolding Copied
      copy_lem ms s p k w o n v g ps h r = copies ms s p k w o n v g ps h r
