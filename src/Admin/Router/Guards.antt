-- ===== src/Admin/Router/Guards.antt =====
-- What the router has checked when it calls a handler.
use proxy_balacer.Base.{
  codes, has_prefix, ap, ◌∙◌, ◌≢◌, ◌≡◌, refl, Bytes, Bool, Bool-cases, true, false, ◌=ᵇ◌,
  if◌then◌else◌, inl, inr, ◌&&◌,
}
use proxy_balacer.Admin.Csrf.{Tokens, validate_csrf}
use proxy_balacer.Admin.Sessions.{is_authenticated}
use proxy_balacer.Admin.Router.{
  has_suffix, Action, dashboard, backends_page, clients_page, subscriptions_page, not_found,
  subscription_qr, subscription_endpoint, login, logout, login_page, Handler, call, get, handler_of,
  add_backend, refetch_backend, toggle_backend, delete_backend, set_active_server, add_client,
  delete_client, add_subscription, delete_subscription, hx_unauthorized, redirect_to_login, Request,
  AdminState, Clock, post, validated, guarded, router,
}

-- The two checks on a request: a session that has not expired, and for a POST a token that is good.
unfoldable pub is_allowed : Clock → Request → AdminState → Bool
is_allowed c r a =
    is_authenticated c.authenticated_at r.session_cookie a.sessions
    && (if r.method =ᵇ post then (validate_csrf c.validated_at r.csrf a.csrf_tokens).0 else true)

validated_call :
    (c : Clock) (r : Request) (a : AdminState) (v : Bool × Tokens) (h : Handler)
    → (validated c r a v).0 ≡ call h
    → (v.0 ≡ true) × (h ≡ handler_of r.path r.method)
unfolding validated
validated_call c r a (true, ts) h e = (refl, cc)
validated_call c r a (false, ts) h e = absurd cc

-- What the router has asked of the token.
token_answer : Clock → Request → AdminState → Bool × Tokens
token_answer c r a =
    if r.method =ᵇ post
    then validate_csrf c.validated_at r.csrf a.csrf_tokens
    else (true, a.csrf_tokens)

answer_lem :
    (c : Clock) (r : Request) (a : AdminState)
    → (token_answer c r a).0
      ≡ (if r.method =ᵇ post then (validate_csrf c.validated_at r.csrf a.csrf_tokens).0 else true)
unfolding token_answer
answer_lem c r a = elim (Bool-cases (r.method =ᵇ post)) [ inl h ↦ rw h refl | inr h ↦ rw h refl ]

guarded_in :
    (c : Clock) (r : Request) (a : AdminState)
    → is_authenticated c.authenticated_at r.session_cookie a.sessions ≡ true
    → guarded c r a ≡ validated c r a (token_answer c r a)
unfolding guarded token_answer
guarded_in c r a h = rw h refl

guarded_out :
    (c : Clock) (r : Request) (a : AdminState)
    → is_authenticated c.authenticated_at r.session_cookie a.sessions ≡ false
    → guarded c r a ≡ ((if r.hx_request then hx_unauthorized else redirect_to_login), a)
unfolding guarded
guarded_out c r a h = rw h refl

out_refused : (b : Bool) (h : Handler) → (if b then hx_unauthorized else redirect_to_login) ≢ call h
out_refused true h e = cc
out_refused false h e = cc

guarded_call :
    (c : Clock) (r : Request) (a : AdminState) (h : Handler)
    → (guarded c r a).0 ≡ call h
    → (is_allowed c r a ≡ true) × (h ≡ handler_of r.path r.method)
unfolding is_allowed
guarded_call c r a h e =
    elim (Bool-cases (is_authenticated c.authenticated_at r.session_cookie a.sessions)) [
      | inl i ↦
          rw (i, ← answer_lem c r a)
            (validated_call c r a (token_answer c r a) h (rw (guarded_in c r a i) at e))
      | inr i ↦ absurd (out_refused r.hx_request h (rw (guarded_out c r a i) at e))
    ]

data Calls (h : Handler) (x : Action × AdminState) : Type 0 where
  calls : x.0 ≡ call h → Calls h x

called : (h : Handler) (x : Action × AdminState) → Calls h x → x.0 ≡ call h
called h x (calls e) = e

-- A branch that calls no handler is not the one taken.
other_branch :
    (b : Bool) (x y : Action × AdminState) (h : Handler)
    → x.0 ≢ call h
    → Calls h (if b then x else y)
    → Calls h y
other_branch true x y h n (calls e) = absurd (n e)
other_branch false x y h n e = e

router_cases :
    (c : Clock) (r : Request) (a : AdminState) (h : Handler)
    → (router c r a).0 ≡ call h
    → (guarded c r a).0 ≡ call h
unfolding router
router_cases c r a h e = called h (guarded c r a) (
    other_branch _ (subscription_endpoint, a) _ h (λ q. cc)
      (other_branch _ (subscription_qr, a) _ h (λ q. cc)
        (other_branch _ (logout, a) _ h (λ q. cc)
          (other_branch _ (login, a) _ h (λ q. cc)
            (other_branch _ (login_page, a) _ h (λ q. cc) (calls e))))))

-- The router calls a handler behind the guards only for a request with a session that has not expired,
-- and, where it is a POST, with a token that is good at that moment; the handler is that of the path and
-- the method.
pub router-call :
    (c : Clock) (r : Request) (a : AdminState) (h : Handler)
    → (router c r a).0 ≡ call h
    → (is_allowed c r a ≡ true) × (h ≡ handler_of r.path r.method)
router-call c r a h e = guarded_call c r a h (router_cases c r a h e)

-- The handlers that change rows, the active server or what is fetched.
unfoldable pub is_changing : Handler → Bool
is_changing add_backend = true
is_changing refetch_backend = true
is_changing toggle_backend = true
is_changing delete_backend = true
is_changing set_active_server = true
is_changing add_client = true
is_changing delete_client = true
is_changing add_subscription = true
is_changing delete_subscription = true
is_changing h = false

data Quiet (h : Handler) : Type 0 where
  quiet : is_changing h ≡ false → Quiet h

quiet_lem : (h : Handler) → Quiet h → is_changing h ≡ false
quiet_lem h (quiet e) = e

-- The branches for another method are not taken, and those for a GET change nothing.
skip_2 : (b : Bool) (h k : Handler) → Quiet k → Quiet (if b && false then h else k)
skip_2 true h k e = e
skip_2 false h k e = e

skip_3 : (b c : Bool) (h k : Handler) → Quiet k → Quiet (if b && (c && false) then h else k)
skip_3 true c h k e = skip_2 c h k e
skip_3 false c h k e = e

either_way : (b : Bool) (h k : Handler) → Quiet h → Quiet k → Quiet (if b then h else k)
either_way true h k d e = d
either_way false h k d e = e

handler_of-Quiet : (path : Bytes) → Quiet (handler_of path get)
unfolding handler_of ◌=ᵇ◌ is_changing
handler_of-Quiet path = either_way ((path =ᵇ codes "/") && true) dashboard _ (quiet refl) (
    either_way ((path =ᵇ codes "/backends") && true) backends_page _ (quiet refl) (
      skip_2 (path =ᵇ codes "/backends") add_backend _ (
        skip_3 (has_prefix path (codes "/backends/")) (has_suffix path (codes "/refetch"))
          refetch_backend _
          (skip_3 (has_prefix path (codes "/backends/")) (has_suffix path (codes "/toggle"))
            toggle_backend _
            (skip_2 (has_prefix path (codes "/backends/")) delete_backend _ (
              skip_2 (path =ᵇ codes "/active-server") set_active_server _ (
                either_way ((path =ᵇ codes "/clients") && true) clients_page _ (quiet refl) (
                  skip_2 (path =ᵇ codes "/clients") add_client _ (
                    skip_2 (has_prefix path (codes "/clients/")) delete_client _ (
                      either_way ((path =ᵇ codes "/subscriptions") && true) subscriptions_page _
                        (quiet refl)
                        (skip_2 (path =ᵇ codes "/subscriptions") add_subscription _ (
                          skip_2 (has_prefix path (codes "/subscriptions/")) delete_subscription
                            not_found (quiet refl)))))))))))))

-- A GET never reaches a handler that changes something.
pub router-get :
    (c : Clock) (r : Request) (a : AdminState) (h : Handler)
    → r.method ≡ get
    → (router c r a).0 ≡ call h
    → is_changing h ≡ false
router-get c r a h m e =
    ap is_changing ((router-call c r a h e).1 ∙ ap (handler_of r.path) m)
    ∙ quiet_lem (handler_of r.path get) (handler_of-Quiet r.path)
