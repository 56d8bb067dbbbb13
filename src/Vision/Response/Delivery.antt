-- ===== src/Vision/Response/Delivery.antt =====
-- What `vlessResponseConn` delivers of the backend's response.
use proxy_balacer.Base.{
  ℕ, ◌≤◌, ◌≡◌, refl, sym, ◌∙◌, ap, Bytes, [], ◌∷◌, ◌++◌, length, drop, min, arith, length-drop,
  take-append-drop, err, All, inl, inr, true, false, none, ltb,
}
use proxy_balacer.Io.{eof, read_full, read_full-append, read_some}
use proxy_balacer.Io.Reads.{step_of, Requests, Positive, given, deliver, Step, Source, deliver-all}
use proxy_balacer.Vision.Response.{
  ResponseConn, new_response_conn, take_addon, take_header, once, pass, refuse, read,
}

-- The states on a whole response of which `p` is still to deliver.
pub data Reading (c : ResponseConn) (p : Bytes) (k : ℕ) : Type 0 where
  passing : c.done ≡ true → c.error ≡ none → c.conn ≡ p → k ≡ length p → Reading c p k
  starting :
      (v : ℕ) (addon : Bytes)
      → c.done ≡ false
      → c.error ≡ none
      → c.conn ≡ v ∷ length addon ∷ addon ++ p
      → k ≡ length p
      → Reading c p k

-- The header of a response that has one, whole.
header_lem :
    (v : ℕ) (addon p : Bytes) (c : ResponseConn)
    → take_header (read_full 2 (v ∷ length addon ∷ addon ++ p)) c
      ≡ record c { conn = p; header = v ∷ length addon ∷ addon }
unfolding take_header take_addon
header_lem v [] p c = rw (read_full-append (v ∷ 0 ∷ []) p) refl
header_lem v (b ∷ addon) p c =
    let e : ltb 0 (length (b ∷ addon)) ≡ true = ground arith in
    rw
      (
        read_full-append (v ∷ length (b ∷ addon) ∷ []) (b ∷ addon ++ p),
        e,
        read_full-append (b ∷ addon) p,
      )
      refl

once_starting :
    (v : ℕ) (addon p : Bytes) (c : ResponseConn)
    → c.done ≡ false
    → c.conn ≡ v ∷ length addon ∷ addon ++ p
    → once c ≡ record c { conn = p; header = v ∷ length addon ∷ addon; done = true }
unfolding once
once_starting v addon p c d e = rw d (
    ap (λ s. take_header (read_full 2 s) (record c { done = true })) e
    ∙ header_lem v addon p (record c { done = true }))

once_passing : (c : ResponseConn) → c.done ≡ true → once c ≡ c
unfolding once
once_passing c d = rw d refl

read_lem :
    (n most : ℕ) (c d : ResponseConn)
    → once c ≡ d
    → d.error ≡ none
    → read n most c ≡ pass d (read_some n most d.conn)
unfolding read refuse
read_lem n most c d e f = rw (e, f) refl

-- A read of the connection below, once the header is off.
pass_step :
    (n most : ℕ) (c d : ResponseConn) (p q : Bytes) (k : ℕ)
    → once c ≡ d
    → d.done ≡ true
    → d.error ≡ none
    → d.conn ≡ q
    → q ≡ p
    → k ≡ length p
    → Step read Reading n most c p k
unfolding read_some pass given
pass_step n most c d p [] k o a b e q j =
    let r : read n most c ≡ (err eof, record d { conn = [] }) =
      read_lem n most c d o b ∙ ap (λ s. pass d (read_some n most s)) e in
    step_of read Reading n most c p k _ _ p k r (passing a b q j) refl (λ _. inr (sym q))
      (λ _. sym q)
pass_step n most c d p (x ∷ s) k o a b e q j =
    let m = min n most in
    let r = read_lem n most c d o b ∙ ap (λ s. pass d (read_some n most s)) e in
    step_of read Reading n most c p k _ _ (drop m (x ∷ s)) (length (drop m (x ∷ s))) r
      (passing a b refl refl) (take-append-drop m (x ∷ s) ∙ q)
      (λ u. inl (omega (arith, length-drop m (x ∷ s), ap length q))) (λ e. absurd e)

step_lem :
    (n most : ℕ) (c : ResponseConn) (p : Bytes) (k : ℕ)
    → Reading c p k
    → Step read Reading n most c p k
step_lem n most c p k (passing d e f j) =
    pass_step n most c c p c.conn k (once_passing c d) d e refl f j
step_lem n most c p k (starting v addon d e f j) =
    pass_step n most c _ p p k (once_starting v addon p c d f) refl e refl refl j

bound_lem : (c : ResponseConn) (p : Bytes) (k : ℕ) → Reading c p k → length p ≤ k
bound_lem c p k (passing d e f j) = omega arith
bound_lem c p k (starting v addon d e f j) = omega arith

pub response_source : Source read Reading
response_source = record { step = step_lem; bound = bound_lem }

pub whole :
    (v : ℕ) (addon body : Bytes)
    → Reading (new_response_conn (v ∷ length addon ∷ addon ++ body)) body (length body)
unfolding new_response_conn
whole v addon body = starting v addon refl refl refl refl

-- The first read drops the header of a response, its addon of the length that the second byte tells
-- included, and no later one drops anything: as many reads as the body has bytes, each with room for a
-- byte and a byte arrived, deliver the body.
pub deliver-response :
    (v : ℕ) (addon body : Bytes) (rs : Requests)
    → All Positive rs
    → length body ≤ length rs
    → (deliver read rs (new_response_conn (v ∷ length addon ∷ addon ++ body))).0 ≡ body
deliver-response v addon body rs ps k =
    deliver-all read response_source rs _ body (length body) (whole v addon body) ps k
