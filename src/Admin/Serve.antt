-- ===== src/Admin/Serve.antt =====
-- admin.go: `router` with the handlers that it calls.
--
-- What a request brings beside its path and its guards (the fields of its form), and what the handlers ask
-- the world, is in `Inputs`. A handler that shows a page makes a token for it and changes nothing else.
pub mod Guarded
use proxy_balacer.Base.{ℕ, Bytes, Bool, List, [], ◌∷◌, codes, Option, none, some, if◌then◌else◌}
use proxy_balacer.Admin.Csrf.{generate_csrf}
use proxy_balacer.Admin.Sessions.{Session, is_authenticated, handle_login, handle_logout}
use proxy_balacer.Balancer.{Env}
use proxy_balacer.Database.{Database}
use proxy_balacer.Admin.Backends.{
  Panel, World, BackendForm, Reply, add_backend, toggle_backend, delete_backend, set_active_server,
}
use proxy_balacer.Admin.Backends.Refetch.{refetch_backend}
use proxy_balacer.Admin.Subscriptions
use proxy_balacer.Admin.Subscriptions.{
  SubscriptionForm, add_client, delete_client, add_subscription, delete_subscription,
}
use proxy_balacer.Admin.Router.{Request, AdminState, Clock, Handler, Action, router, extract_id}

pub record Inputs : Type 0 where
  pub world : World
  pub env : Env
  pub backend : BackendForm
  pub addr : Bytes
  pub row_saved : Bool
  pub client_name : Bytes
  pub client_email : Bytes
  pub token : Bytes
  pub subscription : SubscriptionForm
  pub page_at : ℕ
  pub page_token : Bytes
  pub session_at : ℕ
  pub session_token : Bytes
  pub admin : Bytes × Bytes
  pub credentials : Bytes × Bytes

abbrev pub with_tables : Panel → Subscriptions.Reply × Database → Panel
with_tables p (r, db) = record p { db = db }

unfoldable pub perform : Handler → Inputs → Bytes → Panel → Panel
unfolding extract_id
perform Handler.dashboard i path p = p
perform Handler.backends_page i path p = p
perform Handler.add_backend i path p = (add_backend i.world i.backend p).1
perform Handler.refetch_backend i path p =
    (refetch_backend i.world (extract_id path (codes "/backends/")) p).1
perform Handler.toggle_backend i path p =
    (toggle_backend i.world.conditions (extract_id path (codes "/backends/")) p).1
perform Handler.delete_backend i path p =
    (delete_backend i.world.conditions (extract_id path (codes "/backends/")) p).1
perform Handler.set_active_server i path p = (set_active_server i.env i.addr p).1
perform Handler.clients_page i path p = p
perform Handler.add_client i path p =
    with_tables p (add_client i.row_saved i.client_name i.client_email p.db)
perform Handler.delete_client i path p =
    with_tables p (delete_client i.world.conditions (extract_id path (codes "/clients/")) p.db)
perform Handler.subscriptions_page i path p = p
perform Handler.add_subscription i path p =
    with_tables p (add_subscription i.row_saved i.token i.subscription p.db)
perform Handler.delete_subscription i path p =
    with_tables p
      (delete_subscription i.world.conditions (extract_id path (codes "/subscriptions/")) p.db)
perform Handler.not_found i path p = p

-- The tables, without that of the sessions, and the balancer after an action.
unfoldable pub acted : Action → Inputs → Bytes → Panel → Panel
unfolding perform
acted (Action.call h) i path p = perform h i path p
acted Action.login_page i path p = p
acted Action.login i path p = p
acted Action.logout i path p = p
acted Action.subscription_qr i path p = p
acted Action.subscription_endpoint i path p = p
acted Action.hx_unauthorized i path p = p
acted Action.redirect_to_login i path p = p
acted Action.invalid_csrf i path p = p

-- The state of the guards after `renderContent`.
unfoldable pub render_content : Inputs → AdminState → AdminState
render_content i a = record a { csrf_tokens = generate_csrf i.page_at i.page_token a.csrf_tokens }

-- After `handleLogin`: a session and no page, or a page.
logged_in : Inputs → AdminState → Option Bytes × List Session → AdminState
unfolding render_content
logged_in i a (some token, rows) = record a { sessions = rows }
logged_in i a (none, rows) = render_content i a

-- After `handleLoginPage`, which shows no page to whom has a session.
login_shown : Clock → Request → Inputs → AdminState → AdminState
unfolding render_content
login_shown c r i a =
    if is_authenticated c.authenticated_at r.session_cookie a.sessions
    then a
    else render_content i a

unfoldable pub shown : Handler → Inputs → AdminState → AdminState
unfolding render_content
shown Handler.dashboard i a = render_content i a
shown Handler.backends_page i a = render_content i a
shown Handler.clients_page i a = render_content i a
shown Handler.subscriptions_page i a = render_content i a
shown _ i a = a

-- The tokens and the sessions after an action.
unfoldable pub acted_state : Clock → Request → Inputs → Action → AdminState → AdminState
unfolding logged_in login_shown shown
acted_state c r i (Action.call h) a = shown h i a
acted_state c r i Action.login_page a = login_shown c r i a
acted_state c r i Action.login a =
    logged_in i a (handle_login i.session_at i.session_token i.admin i.credentials a.sessions)
acted_state c r i Action.logout a = record a {
  sessions = handle_logout r.session_cookie a.sessions;
}
acted_state c r i Action.subscription_qr a = a
acted_state c r i Action.subscription_endpoint a = a
acted_state c r i Action.hx_unauthorized a = a
acted_state c r i Action.redirect_to_login a = a
acted_state c r i Action.invalid_csrf a = a

unfoldable pub serve_request : Clock → Request → Inputs → AdminState × Panel → AdminState × Panel
unfolding acted acted_state router
serve_request c r i (a, p) =
    let (action, a1) = router c r a in (acted_state c r i action a1, acted action i r.path p)
