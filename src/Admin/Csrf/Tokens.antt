-- ===== src/Admin/Csrf/Tokens.antt =====
-- How long a token against forged requests is good, and how often.
use proxy_balacer.Base.{
  ℕ, Bool-cases, inl, inr, ◌+◌, ◌≤◌, ◌<◌, ◌≡◌, refl, ◌∙◌, ap, Bytes, true, false, List, [], ◌∷◌,
  Option, none, some, lookup, insert, lookup-insert, lookup-remove, ◌=ᵇ◌, All, arith, text_eq_refl,
}
use proxy_balacer.Admin.Csrf.{
  CsrfRequest, Tokens, thirty_minutes, generate_csrf, token_of, use_token, validate_csrf,
  cleanup_csrf,
}

-- The operations on the tokens.
pub data Op : Type 0 where
  generated : ℕ → Bytes → Op
  validated : ℕ → CsrfRequest → Op
  cleaned : ℕ → Op

unfoldable pub apply : Op → Tokens → Tokens
apply (generated now token) ts = generate_csrf now token ts
apply (validated now r) ts = (validate_csrf now r ts).1
apply (cleaned now) ts = cleanup_csrf now ts

unfoldable pub run : List Op → Tokens → Tokens
run [] ts = ts
run (op ∷ ops) ts = run ops (apply op ts)

-- The operation does not make the token `k`.
unfoldable pub NotMade : Bytes → Op → Type 0
NotMade k (generated now token) = (token =ᵇ k) ≡ false
NotMade k (validated now r) = Unit
NotMade k (cleaned now) = Unit

-- The operation neither makes nor uses the token `k`, and comes before the time `t` where it cleans up.
unfoldable pub Spares : Bytes → ℕ → Op → Type 0
Spares k t (generated now token) = (token =ᵇ k) ≡ false
Spares k t (validated now r) = (token_of r =ᵇ k) ≡ false
Spares k t (cleaned now) = now ≤ t

absent_cleanup :
    (k : Bytes) (now : ℕ) (ts : Tokens) → lookup k ts ≡ none → lookup k (cleanup_csrf now ts) ≡ none
unfolding lookup cleanup_csrf
absent_cleanup k now [] h = refl
absent_cleanup k now ((j, e) ∷ ts) h = ground (arith, absent_cleanup k now ts)

present_cleanup :
    (k : Bytes) (now e : ℕ) (ts : Tokens)
    → lookup k ts ≡ some e
    → now ≤ e
    → lookup k (cleanup_csrf now ts) ≡ some e
unfolding lookup cleanup_csrf
present_cleanup k now e [] h l = absurd cc
present_cleanup k now e ((j, d) ∷ ts) h l = ground (arith, present_cleanup k now e ts)

validate_missing :
    (now : ℕ) (r : CsrfRequest) (ts : Tokens)
    → (token_of r =ᵇ []) ≡ true
    → validate_csrf now r ts ≡ (false, ts)
unfolding validate_csrf token_of
validate_missing now r ts h = rw h refl

validate_given :
    (now : ℕ) (r : CsrfRequest) (ts : Tokens)
    → (token_of r =ᵇ []) ≡ false
    → validate_csrf now r ts ≡ use_token now (token_of r) (lookup (token_of r) ts) ts
unfolding validate_csrf token_of
validate_given now r ts h = rw h refl

used_absent :
    (k token : Bytes) (now : ℕ) (o : Option ℕ) (ts : Tokens)
    → lookup k ts ≡ none
    → lookup k (use_token now token o ts).1 ≡ none
unfolding use_token
used_absent k token now none ts h = h
used_absent k token now (some e) ts h = ground (arith, lookup-remove token k ts)

used_other :
    (k token : Bytes) (now : ℕ) (o : Option ℕ) (ts : Tokens)
    → (token =ᵇ k) ≡ false
    → lookup k (use_token now token o ts).1 ≡ lookup k ts
unfolding use_token
used_other k token now none ts h = refl
used_other k token now (some e) ts h = ground (arith, lookup-remove token k ts)

used_self :
    (token : Bytes) (now : ℕ) (o : Option ℕ) (ts : Tokens)
    → lookup token ts ≡ o
    → lookup token (use_token now token o ts).1 ≡ none
unfolding use_token
used_self token now none ts h = h
used_self token now (some e) ts h = ground (arith, lookup-remove token token ts, text_eq_refl token)

validated_absent :
    (k : Bytes) (now : ℕ) (r : CsrfRequest) (ts : Tokens)
    → lookup k ts ≡ none
    → lookup k (validate_csrf now r ts).1 ≡ none
validated_absent k now r ts h = elim (Bool-cases (token_of r =ᵇ [])) [
  | inl e ↦ rw (validate_missing now r ts e) h
  | inr e ↦
      rw (validate_given now r ts e) (used_absent k (token_of r) now (lookup (token_of r) ts) ts h)
]

validated_other :
    (k : Bytes) (now : ℕ) (r : CsrfRequest) (ts : Tokens)
    → (token_of r =ᵇ k) ≡ false
    → lookup k (validate_csrf now r ts).1 ≡ lookup k ts
validated_other k now r ts n = elim (Bool-cases (token_of r =ᵇ [])) [
  | inl e ↦ rw (validate_missing now r ts e) refl
  | inr e ↦
      rw (validate_given now r ts e) (used_other k (token_of r) now (lookup (token_of r) ts) ts n)
]

-- The state that no operation but the making of `k` leaves.
run_absent :
    (k : Bytes) (ops : List Op) (ts : Tokens)
    → All (NotMade k) ops
    → lookup k ts ≡ none
    → lookup k (run ops ts) ≡ none
unfolding run apply NotMade generate_csrf
run_absent k [] ts n h = h
run_absent k (generated now token ∷ ops) ts (n, ns) h =
    run_absent k ops _ ns (lookup-insert token k (now + thirty_minutes) ts ∙ rw n h)
run_absent k (validated now r ∷ ops) ts (n, ns) h =
    run_absent k ops _ ns (validated_absent k now r ts h)
run_absent k (cleaned now ∷ ops) ts (n, ns) h = run_absent k ops _ ns (absent_cleanup k now ts h)

run_present :
    (k : Bytes) (e : ℕ) (ops : List Op) (ts : Tokens)
    → All (Spares k e) ops
    → lookup k ts ≡ some e
    → lookup k (run ops ts) ≡ some e
unfolding run apply Spares generate_csrf
run_present k e [] ts n h = h
run_present k e (generated now token ∷ ops) ts (n, ns) h =
    run_present k e ops _ ns (lookup-insert token k (now + thirty_minutes) ts ∙ rw n h)
run_present k e (validated now r ∷ ops) ts (n, ns) h =
    run_present k e ops _ ns (validated_other k now r ts n ∙ h)
run_present k e (cleaned now ∷ ops) ts (n, ns) h =
    run_present k e ops _ ns (present_cleanup k now e ts h n)

absent_refused :
    (now : ℕ) (r : CsrfRequest) (ts : Tokens)
    → lookup (token_of r) ts ≡ none
    → (validate_csrf now r ts).0 ≡ false
unfolding use_token
absent_refused now r ts h = elim (Bool-cases (token_of r =ᵇ [])) [
  | inl e ↦ rw (validate_missing now r ts e) refl
  | inr e ↦ rw (validate_given now r ts e, h) refl
]

-- A token is good once: after a request has been validated, be it with success or not, a request with
-- the same token is refused after any operations that do not make that token again.
pub validate_once :
    (now later : ℕ) (r s : CsrfRequest) (ops : List Op) (ts : Tokens)
    → token_of s ≡ token_of r
    → (token_of r =ᵇ []) ≡ false
    → All (NotMade (token_of r)) ops
    → (validate_csrf later s (run ops (validate_csrf now r ts).1)).0 ≡ false
validate_once now later r s ops ts same given n =
    absent_refused later s (run ops (validate_csrf now r ts).1) (
      ap (λ k. lookup k (run ops (validate_csrf now r ts).1)) same
      ∙ run_absent (token_of r) ops (validate_csrf now r ts).1 n (
          rw (validate_given now r ts given)
            (used_self (token_of r) now (lookup (token_of r) ts) ts refl)))

-- A token that was made is good for thirty minutes: a request with it is accepted before they have passed,
-- whatever other tokens are made and used in between, and whatever clean-ups there are in that time.
pub validate-generate_csrf :
    (now later : ℕ) (r : CsrfRequest) (ops : List Op) (ts : Tokens)
    → (token_of r =ᵇ []) ≡ false
    → All (Spares (token_of r) (now + thirty_minutes)) ops
    → later < now + thirty_minutes
    → (validate_csrf later r (run ops (generate_csrf now (token_of r) ts))).0 ≡ true
unfolding use_token generate_csrf
validate-generate_csrf now later r ops ts given n l =
    let k = token_of r in
    let made : lookup k (insert k (now + thirty_minutes) ts) ≡ some (now + thirty_minutes) =
      lookup-insert k k (now + thirty_minutes) ts ∙ rw (text_eq_refl k) refl in
    let m = insert k (now + thirty_minutes) ts in
    rw (validate_given later r (run ops m) given, run_present k (now + thirty_minutes) ops m n made)
      (ground arith)
