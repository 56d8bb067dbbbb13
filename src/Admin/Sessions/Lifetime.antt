-- ===== src/Admin/Sessions/Lifetime.antt =====
-- How long a session lasts.
use proxy_balacer.Base.{
  ℕ, Bool-cases, inl, inr, ◌+◌, ◌≤◌, ◌<◌, ◌≡◌, refl, ◌∙◌, Bytes, true, false, List, [], ◌∷◌, All,
  leb, ◌=ᵇ◌, Option, arith, text_eq_refl, text_eq_iff,
}
use proxy_balacer.Admin.Sessions.{
  Session, thirty_days, create_session, delete_session, session_token, has_row, has_token,
  append_row, is_authenticated, cleanup_sessions, handle_login, handle_logout,
}

-- What happens to the table: a login that succeeds, a logout, or a clean-up.
pub data Op : Type 0 where
  logged_in : ℕ → Bytes → Op
  logged_out : Option Bytes → Op
  cleaned : ℕ → Op

unfoldable pub apply : Op → List Session → List Session
apply (logged_in now token) rows = create_session now token rows
apply (logged_out cookie) rows = handle_logout cookie rows
apply (cleaned now) rows = cleanup_sessions now rows

unfoldable pub run : List Op → List Session → List Session
run [] rows = rows
run (op ∷ ops) rows = run ops (apply op rows)

-- The operation does not make a session with the token `k`.
unfoldable pub NotMade : Bytes → Op → Type 0
NotMade k (logged_in now token) = (token =ᵇ k) ≡ false
NotMade k (logged_out cookie) = Unit
NotMade k (cleaned now) = Unit

-- The operation does not log the token `k` out, and comes before the time `t`.
unfoldable pub Spares : Bytes → ℕ → Op → Type 0
Spares k t (logged_in now token) = Unit
Spares k t (logged_out cookie) = (session_token cookie =ᵇ k) ≡ false
Spares k t (cleaned now) = now ≤ t

-- The rows hold no session with the token, or one that lasts beyond `t`.
HasNone : Bytes → List Session → Type 0
HasNone k [] = Unit
HasNone k (s ∷ rows) = ((s.token =ᵇ k) ≡ false) × HasNone k rows

has_row-HasNone :
    (t : ℕ) (k : Bytes) (rows : List Session) → HasNone k rows → has_row t k rows ≡ false
unfolding HasNone has_row
has_row-HasNone t k [] h = refl
has_row-HasNone t k (s ∷ rows) (h, hs) = rw (h, has_row-HasNone t k rows hs) refl

deleted_self : (k : Bytes) (rows : List Session) → HasNone k (delete_session k rows)
unfolding HasNone delete_session
deleted_self k [] = tt
deleted_self k (s ∷ rows) = elim (Bool-cases (s.token =ᵇ k)) [
  | inl e ↦ rw e (deleted_self k rows)
  | inr e ↦ rw e (e, deleted_self k rows)
]

deleted_HasNone :
    (k j : Bytes) (rows : List Session) → HasNone k rows → HasNone k (delete_session j rows)
unfolding HasNone delete_session
deleted_HasNone k j [] h = tt
deleted_HasNone k j (s ∷ rows) (h, hs) = elim (Bool-cases (s.token =ᵇ j)) [
  | inl e ↦ rw e (deleted_HasNone k j rows hs)
  | inr e ↦ rw e (h, deleted_HasNone k j rows hs)
]

cleaned_HasNone :
    (k : Bytes) (now : ℕ) (rows : List Session)
    → HasNone k rows
    → HasNone k (cleanup_sessions now rows)
unfolding HasNone cleanup_sessions
cleaned_HasNone k now [] h = tt
cleaned_HasNone k now (s ∷ rows) (h, hs) = elim (Bool-cases (leb s.expires_at now)) [
  | inl e ↦ rw e (cleaned_HasNone k now rows hs)
  | inr e ↦ rw e (h, cleaned_HasNone k now rows hs)
]

appended_HasNone :
    (k : Bytes) (now : ℕ) (token : Bytes) (rows : List Session)
    → (token =ᵇ k) ≡ false
    → HasNone k rows
    → HasNone k (append_row now token rows)
unfolding HasNone append_row
appended_HasNone k now token [] n h = (n, tt)
appended_HasNone k now token (s ∷ rows) n (h, hs) = (h, appended_HasNone k now token rows n hs)

created_HasNone :
    (k : Bytes) (now : ℕ) (token : Bytes) (rows : List Session)
    → (token =ᵇ k) ≡ false
    → HasNone k rows
    → HasNone k (create_session now token rows)
unfolding create_session
created_HasNone k now token rows n h = elim (Bool-cases (has_token token rows)) [
  | inl e ↦ rw e h
  | inr e ↦ rw e (appended_HasNone k now token rows n h)
]

run-HasNone :
    (k : Bytes) (ops : List Op) (rows : List Session)
    → All (NotMade k) ops
    → HasNone k rows
    → HasNone k (run ops rows)
unfolding run apply NotMade handle_logout
run-HasNone k [] rows n h = h
run-HasNone k (logged_in now token ∷ ops) rows (n, ns) h =
    run-HasNone k ops _ ns (created_HasNone k now token rows n h)
run-HasNone k (logged_out cookie ∷ ops) rows (n, ns) h =
    run-HasNone k ops _ ns (deleted_HasNone k (session_token cookie) rows h)
run-HasNone k (cleaned now ∷ ops) rows (n, ns) h =
    run-HasNone k ops _ ns (cleaned_HasNone k now rows h)

-- After a logout no request with the cookie of that session is authenticated, whatever happens to the
-- table, unless a login makes the same token again.
pub is_authenticated-handle_logout :
    (cookie : Option Bytes) (later : ℕ) (ops : List Op) (rows : List Session)
    → All (NotMade (session_token cookie)) ops
    → is_authenticated later cookie (run ops (handle_logout cookie rows)) ≡ false
unfolding is_authenticated handle_logout
is_authenticated-handle_logout cookie later ops rows n =
    let k = session_token cookie in
    let h =
      has_row-HasNone later k (run ops (delete_session k rows))
        (run-HasNone k ops (delete_session k rows) n (deleted_self k rows)) in
    ground arith

appended_row :
    (k : Bytes) (now t : ℕ) (token : Bytes) (rows : List Session)
    → has_row t k rows ≡ true
    → has_row t k (append_row now token rows) ≡ true
unfolding has_row append_row
appended_row k now t token [] h = absurd cc
appended_row k now t token (s ∷ rows) h = ground (arith, appended_row k now t token rows)

created_row :
    (k : Bytes) (now t : ℕ) (token : Bytes) (rows : List Session)
    → has_row t k rows ≡ true
    → has_row t k (create_session now token rows) ≡ true
unfolding create_session
created_row k now t token rows h = elim (Bool-cases (has_token token rows)) [
  | inl e ↦ rw e h
  | inr e ↦ rw e (appended_row k now t token rows h)
]

new_row :
    (k : Bytes) (now t : ℕ) (rows : List Session)
    → t < now + thirty_days
    → has_row t k (append_row now k rows) ≡ true
unfolding has_row append_row
new_row k now t [] h = ground (arith, text_eq_refl k)
new_row k now t (s ∷ rows) h = ground (arith, new_row k now t rows h)

made_row :
    (k : Bytes) (now t : ℕ) (rows : List Session)
    → has_token k rows ≡ false
    → t < now + thirty_days
    → has_row t k (create_session now k rows) ≡ true
unfolding create_session
made_row k now t rows e h = rw e (new_row k now t rows h)

deleted_row :
    (k j : Bytes) (t : ℕ) (rows : List Session)
    → (j =ᵇ k) ≡ false
    → has_row t k (delete_session j rows) ≡ has_row t k rows
unfolding has_row delete_session
deleted_row k j t [] n = refl
deleted_row k j t (s ∷ rows) n =
    ground (
      arith,
      deleted_row k j t rows n,
      text_eq_iff s.token j,
      text_eq_iff s.token k,
      text_eq_iff j k,
    )

cleaned_row :
    (k : Bytes) (now t : ℕ) (rows : List Session)
    → now ≤ t
    → has_row t k (cleanup_sessions now rows) ≡ has_row t k rows
unfolding has_row cleanup_sessions
cleaned_row k now t [] n = refl
cleaned_row k now t (s ∷ rows) n = ground (arith, cleaned_row k now t rows n)

run_row :
    (k : Bytes) (t : ℕ) (ops : List Op) (rows : List Session)
    → All (Spares k t) ops
    → has_row t k rows ≡ true
    → has_row t k (run ops rows) ≡ true
unfolding run apply Spares handle_logout
run_row k t [] rows n h = h
run_row k t (logged_in now token ∷ ops) rows (n, ns) h =
    run_row k t ops _ ns (created_row k now t token rows h)
run_row k t (logged_out cookie ∷ ops) rows (n, ns) h =
    run_row k t ops _ ns (deleted_row k (session_token cookie) t rows n ∙ h)
run_row k t (cleaned now ∷ ops) rows (n, ns) h =
    run_row k t ops _ ns (cleaned_row k now t rows n ∙ h)

-- The session that a login with the right credentials makes, with a token that is not empty and that no
-- row has, is authenticated for thirty days, whatever other sessions come and go and whatever clean-ups there are up
-- to that request, unless it is logged out.
pub is_authenticated-handle_login :
    (now later : ℕ) (k user password : Bytes) (ops : List Op) (rows : List Session)
    → (k =ᵇ []) ≡ false
    → has_token k rows ≡ false
    → All (Spares k later) ops
    → later < now + thirty_days
    → let (cookie, rows1) = handle_login now k (user, password) (user, password) rows in
      is_authenticated later cookie (run ops rows1) ≡ true
unfolding is_authenticated handle_login session_token
is_authenticated-handle_login now later k user password ops rows g f n l =
    let h = run_row k later ops (create_session now k rows) n (made_row k now later rows f l) in
    rw (text_eq_refl user, text_eq_refl password, g) h
