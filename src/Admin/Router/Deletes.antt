-- ===== src/Admin/Router/Deletes.antt =====
-- What the router asks of a DELETE.
use proxy_balacer.Base.{
  ◌≡◌, refl, ◌∙◌, Bool, true, false, ◌&&◌, ◌=ᵇ◌, if◌then◌else◌, codes, has_prefix,
}
use proxy_balacer.Admin.Csrf.{cleanup_csrf}
use proxy_balacer.Admin.Sessions.{is_authenticated}
use proxy_balacer.Admin.Router.{
  Action, call, login_page, login, logout, subscription_qr, subscription_endpoint, Request,
  AdminState, Clock, delete, handler_of, has_suffix, validated, guarded, router,
}

skip_2 : (b : Bool) (x y : Action × AdminState) → (if b && false then x else y) ≡ y
skip_2 true x y = refl
skip_2 false x y = refl

skip_3 : (b c : Bool) (x y : Action × AdminState) → (if b && (c && false) then x else y) ≡ y
skip_3 true c x y = skip_2 c x y
skip_3 false c x y = refl

reaches_guards :
    (c : Clock) (r : Request) (a : AdminState)
    → router c (record r { method = delete }) a ≡ guarded c (record r { method = delete }) a
unfolding router ◌=ᵇ◌
reaches_guards c r a =
    skip_2 (r.path =ᵇ codes "/login") (login_page, a) _
    ∙ skip_2 (r.path =ᵇ codes "/login") (login, a) _
    ∙ skip_2 (r.path =ᵇ codes "/logout") (logout, a) _
    ∙ skip_3 (has_prefix r.path (codes "/sub/")) (has_suffix r.path (codes "/qr"))
        (subscription_qr, a) _
    ∙ skip_2 (has_prefix r.path (codes "/sub/")) (subscription_endpoint, a) _

passes_guards :
    (c : Clock) (r : Request) (a : AdminState)
    → is_authenticated c.authenticated_at r.session_cookie a.sessions ≡ true
    → guarded c (record r { method = delete }) a ≡ (
      call (handler_of r.path delete),
      record a { csrf_tokens = cleanup_csrf c.cleaned_at a.csrf_tokens },
    )
unfolding guarded validated ◌=ᵇ◌
passes_guards c r a h = rw h refl

-- A DELETE with a session that has not expired reaches the handler of its path whatever token it carries,
-- and uses none up.
pub router_deletes :
    (c : Clock) (r : Request) (a : AdminState)
    → is_authenticated c.authenticated_at r.session_cookie a.sessions ≡ true
    → router c (record r { method = delete }) a ≡ (
      call (handler_of r.path delete),
      record a { csrf_tokens = cleanup_csrf c.cleaned_at a.csrf_tokens },
    )
router_deletes c r a h = reaches_guards c r a ∙ passes_guards c r a h
