-- ===== src/Admin/Serve/Guarded.antt =====
-- Who can change the tables and the active server, and which requests touch the sessions.
use proxy_balacer.Base.{
  ◌≡◌, ◌⊎◌, inl, inr, refl, Bytes, Bool, true, false, codes, ◌=ᵇ◌, ◌&&◌, if◌then◌else◌, has_prefix,
  Bool-cases, arith, text_eq_iff,
}
use proxy_balacer.Admin.Csrf.{Tokens, validate_csrf, cleanup_csrf}
use proxy_balacer.Admin.Sessions.{is_authenticated}
use proxy_balacer.Admin.Backends.{Panel}
use proxy_balacer.Admin.Router.{
  Request, AdminState, Clock, Handler, Action, has_suffix, router, get, post, validated, guarded,
  handler_of,
}
use proxy_balacer.Admin.Router.Guards.{is_allowed, is_changing, router-call, router-get}
use proxy_balacer.Admin.Serve.{
  Inputs, perform, acted, acted_state, login_shown, render_content, shown, serve_request,
}

perform_quiet :
    (h : Handler) (i : Inputs) (path : Bytes) (p : Panel)
    → is_changing h ≡ false
    → perform h i path p ≡ p
unfolding perform is_changing
perform_quiet Handler.dashboard i path p e = refl
perform_quiet Handler.backends_page i path p e = refl
perform_quiet Handler.add_backend i path p e = absurd (cc)
perform_quiet Handler.refetch_backend i path p e = absurd (cc)
perform_quiet Handler.toggle_backend i path p e = absurd (cc)
perform_quiet Handler.delete_backend i path p e = absurd (cc)
perform_quiet Handler.set_active_server i path p e = absurd (cc)
perform_quiet Handler.clients_page i path p e = refl
perform_quiet Handler.add_client i path p e = absurd (cc)
perform_quiet Handler.delete_client i path p e = absurd (cc)
perform_quiet Handler.subscriptions_page i path p e = refl
perform_quiet Handler.add_subscription i path p e = absurd (cc)
perform_quiet Handler.delete_subscription i path p e = absurd (cc)
perform_quiet Handler.not_found i path p e = refl

acted_quiet :
    (c : Clock) (r : Request) (a : AdminState) (i : Inputs) (p : Panel) (x : Action)
    → (router c r a).0 ≡ x
    → (is_allowed c r a ≡ false) ⊎ (r.method ≡ get)
    → acted x i r.path p ≡ p
unfolding acted
acted_quiet c r a i p (Action.call h) e (inl n) = let (y, _) = router-call c r a h e in absurd (cc)
acted_quiet c r a i p (Action.call h) e (inr m) =
    perform_quiet h i r.path p (router-get c r a h m e)
acted_quiet c r a i p Action.login_page e d = refl
acted_quiet c r a i p Action.login e d = refl
acted_quiet c r a i p Action.logout e d = refl
acted_quiet c r a i p Action.subscription_qr e d = refl
acted_quiet c r a i p Action.subscription_endpoint e d = refl
acted_quiet c r a i p Action.hx_unauthorized e d = refl
acted_quiet c r a i p Action.redirect_to_login e d = refl
acted_quiet c r a i p Action.invalid_csrf e d = refl

-- The sessions after what the router has answered.
SameSessions : Clock → Request → Inputs → AdminState → Action × AdminState → Type 0
SameSessions c r i a (x, a1) = (acted_state c r i x a1).sessions ≡ a.sessions

branch :
    (c : Clock) (r : Request) (i : Inputs) (a : AdminState) (b : Bool) (x y : Action × AdminState)
    → SameSessions c r i a x
    → SameSessions c r i a y
    → SameSessions c r i a (if b then x else y)
branch c r i a true x y p q = p
branch c r i a false x y p q = q

shown_sessions : (h : Handler) (i : Inputs) (a : AdminState) → (shown h i a).sessions ≡ a.sessions
unfolding shown render_content
shown_sessions Handler.dashboard i a = refl
shown_sessions Handler.backends_page i a = refl
shown_sessions Handler.clients_page i a = refl
shown_sessions Handler.subscriptions_page i a = refl
shown_sessions h i a = refl

validated_sessions :
    (c : Clock) (r : Request) (i : Inputs) (a : AdminState) (v : Bool × Tokens)
    → SameSessions c r i a (validated c r a v)
unfolding validated SameSessions acted_state
validated_sessions c r i a (true, ts) =
    shown_sessions (handler_of r.path r.method) i
      (record a { csrf_tokens = cleanup_csrf c.cleaned_at ts })
validated_sessions c r i a (false, ts) = refl

refused_sessions :
    (c : Clock) (r : Request) (i : Inputs) (a : AdminState) (b : Bool)
    → SameSessions c r i a ((if b then Action.hx_unauthorized else Action.redirect_to_login), a)
unfolding SameSessions acted_state
refused_sessions c r i a true = refl
refused_sessions c r i a false = refl

guarded_sessions :
    (c : Clock) (r : Request) (i : Inputs) (a : AdminState) → SameSessions c r i a (guarded c r a)
unfolding guarded
guarded_sessions c r i a =
    branch c r i a (is_authenticated c.authenticated_at r.session_cookie a.sessions)
      (validated c r a (
        if r.method =ᵇ post
        then validate_csrf c.validated_at r.csrf a.csrf_tokens
        else (true, a.csrf_tokens)))
      ((if r.hx_request then Action.hx_unauthorized else Action.redirect_to_login), a)
      (validated_sessions c r i a _) (refused_sessions c r i a r.hx_request)

login_sessions :
    (c : Clock) (r : Request) (i : Inputs) (a : AdminState)
    → SameSessions c r i a (Action.login_page, a)
unfolding SameSessions acted_state login_shown render_content
login_sessions c r i a =
    elim (Bool-cases (is_authenticated c.authenticated_at r.session_cookie a.sessions)) [
      | inl e ↦ rw e refl
      | inr e ↦ rw e refl
    ]

sent_sessions :
    (c : Clock) (r : Request) (i : Inputs) (a : AdminState)
    → SameSessions c r i a (Action.subscription_qr, a)
      × SameSessions c r i a (Action.subscription_endpoint, a)
unfolding SameSessions acted_state
sent_sessions c r i a = (refl, refl)

router_sessions :
    (c : Clock) (r : Request) (i : Inputs) (a : AdminState)
    → ((r.path =ᵇ codes "/login") && (r.method =ᵇ post)) ≡ false
    → ((r.path =ᵇ codes "/logout") && (r.method =ᵇ get)) ≡ false
    → SameSessions c r i a (router c r a)
unfolding router
router_sessions c r i a e f =
    let (qr, link) = sent_sessions c r i a in
    rw (e, f)
      (branch c r i a ((r.path =ᵇ codes "/login") && (r.method =ᵇ get)) (Action.login_page, a) _
        (login_sessions c r i a)
        (branch c r i a
          (has_prefix r.path (codes "/sub/")
            && (has_suffix r.path (codes "/qr") && (r.method =ᵇ get)))
          (Action.subscription_qr, a) _ qr
          (branch c r i a (has_prefix r.path (codes "/sub/") && (r.method =ᵇ get))
            (Action.subscription_endpoint, a) _ link (guarded_sessions c r i a))))

is_request : (s t u v : Bytes) → ((s =ᵇ t) && (u =ᵇ v)) ≡ true → (s ≡ t) × (u ≡ v)
is_request s t u v e = ground (arith, text_eq_iff s t, text_eq_iff u v)

-- A request without a session that has not expired, a POST without a token that is good at that moment, and
-- a GET leave all tables but that of the sessions, the balancer and the active server as they are; and they
-- leave the sessions as they are too, unless the request is a POST of /login or a GET of /logout.
pub serve_request-unchanged :
    (c : Clock) (r : Request) (a : AdminState) (i : Inputs) (p : Panel)
    → (is_allowed c r a ≡ false) ⊎ (r.method ≡ get)
    → ((serve_request c r i (a, p)).1 ≡ p)
      × (((serve_request c r i (a, p)).0.sessions ≡ a.sessions)
          ⊎ ((r.path ≡ codes "/login") × (r.method ≡ post))
          ⊎ ((r.path ≡ codes "/logout") × (r.method ≡ get)))
unfolding serve_request
serve_request-unchanged c r a i p d = (acted_quiet c r a i p (router c r a).0 refl d, sessions)
  where
    sessions :
        ((serve_request c r i (a, p)).0.sessions ≡ a.sessions)
        ⊎ ((r.path ≡ codes "/login") × (r.method ≡ post))
        ⊎ ((r.path ≡ codes "/logout") × (r.method ≡ get))
    sessions = elim (Bool-cases ((r.path =ᵇ codes "/login") && (r.method =ᵇ post))) [
      | inl e ↦ inr (inl (is_request r.path (codes "/login") r.method post e))
      | inr e ↦ elim (Bool-cases ((r.path =ᵇ codes "/logout") && (r.method =ᵇ get))) [
        | inl f ↦ inr (inr (is_request r.path (codes "/logout") r.method get f))
        | inr f ↦ inl (unfold SameSessions in router_sessions c r i a e f)
      ]
    ]
