-- ===== src/Tests/Requests.antt =====
-- Requests to the admin panel, with their handlers, on concrete input.
use proxy_balacer.Base.{
  ◌≡◌, refl, Bytes, true, false, [], ◌∷◌, none, some, ◌=ᵇ◌, decimal, codes, has_prefix, inl, ◌⊎◌,
}
use proxy_balacer.Admin.Router.{trim_prefix, trim_suffix, has_suffix}
use proxy_balacer.Admin.Subscriptions.{
  SubscriptionForm, add_subscription, delete_subscription, token_used,
}
use proxy_balacer.Admin.Subscriptions.Answers.{client_link, subscription_endpoint, token_in}
use proxy_balacer.Admin.Subscriptions.Lifetime.{endpoint-add_subscription}
use proxy_balacer.Admin.Sessions.{is_authenticated, has_row, session_token}
use proxy_balacer.Admin.Router.{Request, AdminState, Clock, get, post}
use proxy_balacer.Admin.Router.Guards.{is_allowed}
use proxy_balacer.Admin.Serve.{Inputs, serve_request}
use proxy_balacer.Admin.Serve.Guarded.{serve_request-unchanged}
use proxy_balacer.Tests.Panel.{start, printed, printed-ByKey, config, panel_world, form}

token_lem : token_in (codes "/sub/k") (codes ".txt") ≡ codes "k"
unfolding token_in trim_prefix trim_suffix has_suffix has_prefix ◌=ᵇ◌
token_lem = refl

new_token : token_used (codes "k") start.db.subscriptions.rows ≡ false
unfolding token_used ◌=ᵇ◌
new_token = refl

abbrev subscription_form : SubscriptionForm
subscription_form = record { client_id = codes "3"; name = codes "n"; config_ids = codes "5" ∷ [] }

endpoint-add_subscription_example :
    let one = (add_subscription true (codes "k") subscription_form start.db).1 in
    let two = (delete_subscription printed (decimal 8) one).1 in
    ((h : Bytes) × (subscription_endpoint config one.subscriptions.rows (codes "/sub/k") (codes "x")
        ≡ some (client_link config h)))
    × (subscription_endpoint config two.subscriptions.rows (codes "/sub/k") (codes "x") ≡ none)
endpoint-add_subscription_example =
    endpoint-add_subscription printed config (codes "k") (codes "/sub/k") (codes "x")
      subscription_form start.db printed-ByKey new_token token_lem

abbrev inputs : Inputs
inputs = record {
  world = panel_world;
  env = record { now = 1; write_ok = true; fetch_ok = λ u. true };
  backend = form;
  addr = codes "h:1";
  row_saved = true;
  client_name = codes "c";
  client_email = [];
  token = codes "k";
  subscription = subscription_form;
  page_at = 2;
  page_token = codes "p";
  session_at = 2;
  session_token = codes "s";
  admin = (codes "admin", codes "pw");
  credentials = (codes "admin", codes "no");
}

abbrev stranger : Request
stranger = record {
  path = codes "/clients/3";
  method = codes "DELETE";
  session_cookie = none;
  csrf = record { form = []; header = [] };
  hx_request = false;
}

abbrev at_one : Clock
at_one = record { authenticated_at = 1; validated_at = 1; cleaned_at = 1 }

abbrev no_sessions : AdminState
no_sessions = record { csrf_tokens = []; sessions = [] }

stranger_lem : is_allowed at_one stranger no_sessions ≡ false
unfolding is_allowed is_authenticated has_row session_token ◌=ᵇ◌
stranger_lem = refl

serve_request-unchanged_example :
    ((serve_request at_one stranger inputs (no_sessions, start)).1 ≡ start)
    × (((serve_request at_one stranger inputs (no_sessions, start)).0.sessions
          ≡ no_sessions.sessions)
        ⊎ ((stranger.path ≡ codes "/login") × (stranger.method ≡ post))
        ⊎ ((stranger.path ≡ codes "/logout") × (stranger.method ≡ get)))
serve_request-unchanged_example =
    serve_request-unchanged at_one stranger no_sessions inputs start (inl stranger_lem)
