-- ===== src/Proxy/Prepend/Delivery.antt =====
-- What a connection delivers after its first byte has been read for the dispatch.
use proxy_balacer.Base.{
  ℕ, ◌≤◌, ◌≡◌, refl, sym, ◌∙◌, ap, Bytes, [], ◌∷◌, ◌++◌, length, take, drop, min, arith,
  length-drop, take-append-drop, append_assoc, All, inl, inr,
}
use proxy_balacer.Io.{read_some}
use proxy_balacer.Io.Reads.{Requests, Positive, given, deliver, Step, step_of, deliver-all}
use proxy_balacer.Vision.Reader.Stream.{take-append-drop-min, buffered_advances}
use proxy_balacer.Proxy.Prepend.{PrependConn, pass, read_from, read}

-- What is still to come: the rest of the buffer, and then the connection.
data Reading (c : PrependConn) (p : Bytes) (k : ℕ) : Type 0 where
  reading : c.buf ++ c.conn ≡ p → k ≡ length p → Reading c p k

buffer_step :
    (n most : ℕ) (c : PrependConn) (p : Bytes) (k b : ℕ) (s : Bytes)
    → c.buf ≡ b ∷ s
    → b ∷ s ++ c.conn ≡ p
    → k ≡ length p
    → Step read Reading n most c p k
unfolding read read_from given
buffer_step n most c p k b s e q j =
    let d = drop (min n (length (b ∷ s))) (b ∷ s) in
    step_of read Reading n most c p k _ _ (d ++ c.conn) (length (d ++ c.conn))
      (ap (λ t. read_from t n most c) e) (reading refl refl)
      (sym (append_assoc (take n (b ∷ s)) d c.conn)
        ∙ ap (λ t. t ++ c.conn) (take-append-drop-min n (b ∷ s))
        ∙ q)
      (λ u. inl (omega (arith, buffered_advances n (b ∷ s) c.conn u.0 (omega arith), ap length q)))
      (λ a. absurd a)

conn_step :
    (n most : ℕ) (c : PrependConn) (p : Bytes) (k : ℕ) (s : Bytes)
    → c.buf ≡ []
    → c.conn ≡ s
    → s ≡ p
    → k ≡ length p
    → Step read Reading n most c p k
unfolding read read_from pass read_some given
conn_step n most c p k [] e f q j =
    step_of read Reading n most c p k _ _ p k
      (ap (λ t. read_from t n most c) e ∙ ap (λ t. pass c (read_some n most t)) f)
      (reading (ap (λ t. t ++ []) e ∙ q) j) refl (λ _. inr (sym q)) (λ _. sym q)
conn_step n most c p k (x ∷ s) e f q j =
    let d = drop (min n most) (x ∷ s) in
    step_of read Reading n most c p k _ _ d (length d)
      (ap (λ t. read_from t n most c) e ∙ ap (λ t. pass c (read_some n most t)) f)
      (reading (ap (λ t. t ++ d) e) refl) (take-append-drop (min n most) (x ∷ s) ∙ q)
      (λ u. inl (omega (arith, length-drop (min n most) (x ∷ s), ap length q))) (λ a. absurd a)

step_at :
    (n most : ℕ) (c : PrependConn) (p : Bytes) (k : ℕ) (t : Bytes)
    → c.buf ≡ t
    → t ++ c.conn ≡ p
    → k ≡ length p
    → Step read Reading n most c p k
step_at n most c p k [] e q j = conn_step n most c p k c.conn e refl q j
step_at n most c p k (b ∷ s) e q j = buffer_step n most c p k b s e q j

step_lem :
    (n most : ℕ) (c : PrependConn) (p : Bytes) (k : ℕ)
    → Reading c p k
    → Step read Reading n most c p k
step_lem n most c p k (reading q j) = step_at n most c p k c.buf refl q j

bound_lem : (c : PrependConn) (p : Bytes) (k : ℕ) → Reading c p k → length p ≤ k
bound_lem c p k (reading q j) = omega arith

-- The bytes that were read ahead and those of the connection come out in their order, in as many reads as
-- there are bytes, each with room for a byte and a byte arrived.
pub deliver-prepended :
    (ahead s : Bytes) (rs : Requests)
    → All Positive rs
    → length (ahead ++ s) ≤ length rs
    → (deliver read rs (record { conn = s; buf = ahead })).0 ≡ ahead ++ s
deliver-prepended ahead s rs ps k =
    deliver-all read (record { step = step_lem; bound = bound_lem }) rs _ (ahead ++ s)
      (length (ahead ++ s)) (reading refl refl) ps k
