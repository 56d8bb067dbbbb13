-- ===== src/Admin/Router.antt =====
-- admin.go: `router`, and the identifier in a path.
pub mod Guards
pub mod Deletes
use proxy_balacer.Base.{
  ℕ, ◌-◌, Bytes, Bool, true, false, ◌&&◌, not, List, [], Option, codes, length, take, drop, leb,
  has_prefix, ◌=ᵇ◌, if◌then◌else◌,
}
use proxy_balacer.Admin.Csrf.{CsrfRequest, Tokens, validate_csrf, cleanup_csrf}
use proxy_balacer.Admin.Sessions.{Session, is_authenticated}

-- `strings.HasSuffix`, `strings.TrimPrefix` and `strings.TrimSuffix`.
unfoldable pub has_suffix : Bytes → Bytes → Bool
has_suffix s t = leb (length t) (length s) && (drop (length s - length t) s =ᵇ t)

unfoldable pub trim_prefix : Bytes → Bytes → Bytes
trim_prefix s t = if has_prefix s t then drop (length t) s else s

unfoldable pub trim_suffix : Bytes → Bytes → Bytes
unfolding has_suffix
trim_suffix s t = if has_suffix s t then take (length s - length t) s else s

unfoldable pub extract_id : Bytes → Bytes → Bytes
unfolding trim_prefix trim_suffix
extract_id path prefix =
    trim_suffix
      (trim_suffix (trim_suffix (trim_prefix path prefix) (codes "/refetch")) (codes "/toggle"))
      (codes "/")

-- The handlers behind the guards.
pub data Handler : Type 0 where
  dashboard backends_page add_backend refetch_backend toggle_backend delete_backend : Handler
  set_active_server clients_page add_client delete_client : Handler
  subscriptions_page add_subscription delete_subscription not_found : Handler

pub data Action : Type 0 where
  login_page login logout subscription_qr subscription_endpoint : Action
  hx_unauthorized redirect_to_login invalid_csrf : Action
  call : Handler → Action

pub record Request : Type 0 where
  pub path : Bytes
  pub method : Bytes
  pub session_cookie : Option Bytes
  pub csrf : CsrfRequest
  pub hx_request : Bool

-- The state that the guards look at.
pub record AdminState : Type 0 where
  pub csrf_tokens : Tokens
  pub sessions : List Session

-- The times at which the guards look at the clock.
pub record Clock : Type 0 where
  pub authenticated_at : ℕ
  pub validated_at : ℕ
  pub cleaned_at : ℕ

abbrev pub get : Bytes
get = codes "GET"

abbrev pub post : Bytes
post = codes "POST"

abbrev pub delete : Bytes
delete = codes "DELETE"

unfoldable pub handler_of : Bytes → Bytes → Handler
unfolding has_suffix
handler_of path method =
    if (path =ᵇ codes "/") && (method =ᵇ get)
    then dashboard
    else if (path =ᵇ codes "/backends") && (method =ᵇ get)
    then backends_page
    else if (path =ᵇ codes "/backends") && (method =ᵇ post)
    then add_backend
    else if has_prefix path (codes "/backends/")
        && (has_suffix path (codes "/refetch") && (method =ᵇ post))
    then refetch_backend
    else if has_prefix path (codes "/backends/")
        && (has_suffix path (codes "/toggle") && (method =ᵇ post))
    then toggle_backend
    else if has_prefix path (codes "/backends/") && (method =ᵇ delete)
    then delete_backend
    else if (path =ᵇ codes "/active-server") && (method =ᵇ post)
    then set_active_server
    else if (path =ᵇ codes "/clients") && (method =ᵇ get)
    then clients_page
    else if (path =ᵇ codes "/clients") && (method =ᵇ post)
    then add_client
    else if has_prefix path (codes "/clients/") && (method =ᵇ delete)
    then delete_client
    else if (path =ᵇ codes "/subscriptions") && (method =ᵇ get)
    then subscriptions_page
    else if (path =ᵇ codes "/subscriptions") && (method =ᵇ post)
    then add_subscription
    else if has_prefix path (codes "/subscriptions/") && (method =ᵇ delete)
    then delete_subscription
    else not_found

-- The end of the router, with the answer of `validateCSRF`, which is called for a POST alone.
unfoldable pub validated : Clock → Request → AdminState → Bool × Tokens → Action × AdminState
validated c r a (false, ts) = (invalid_csrf, record a { csrf_tokens = ts })
validated c r a (true, ts) =
    (call (handler_of r.path r.method), record a { csrf_tokens = cleanup_csrf c.cleaned_at ts })

unfoldable pub guarded : Clock → Request → AdminState → Action × AdminState
unfolding validated
guarded c r a =
    if is_authenticated c.authenticated_at r.session_cookie a.sessions
    then validated c r a (
        if r.method =ᵇ post
        then validate_csrf c.validated_at r.csrf a.csrf_tokens
        else (true, a.csrf_tokens))
    else ((if r.hx_request then hx_unauthorized else redirect_to_login), a)

unfoldable pub router : Clock → Request → AdminState → Action × AdminState
unfolding guarded has_suffix
router c r a =
    if (r.path =ᵇ codes "/login") && (r.method =ᵇ get)
    then (login_page, a)
    else if (r.path =ᵇ codes "/login") && (r.method =ᵇ post)
    then (login, a)
    else if (r.path =ᵇ codes "/logout") && (r.method =ᵇ get)
    then (logout, a)
    else if has_prefix r.path (codes "/sub/")
        && (has_suffix r.path (codes "/qr") && (r.method =ᵇ get))
    then (subscription_qr, a)
    else if has_prefix r.path (codes "/sub/") && (r.method =ᵇ get)
    then (subscription_endpoint, a)
    else guarded c r a
