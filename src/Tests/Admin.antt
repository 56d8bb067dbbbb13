-- ===== src/Tests/Admin.antt =====
-- Tokens, sessions and requests of the admin panel on concrete input.
use proxy_balacer.Base.{
  codes, [], ◌∷◌, some, ◌≡◌, refl, arith, true, false, ◌=ᵇ◌, lookup, has_prefix,
}
use proxy_balacer.Admin.Csrf.{CsrfRequest, generate_csrf, validate_csrf, token_of, use_token}
use proxy_balacer.Admin.Csrf.{cleanup_csrf}
use proxy_balacer.Admin.Csrf.Tokens
use proxy_balacer.Admin.Csrf.Tokens.{validate_once, validate-generate_csrf}
use proxy_balacer.Admin.Sessions.{
  has_token, handle_login, handle_logout, has_row, is_authenticated, session_token,
}
use proxy_balacer.Admin.Sessions.Lifetime
use proxy_balacer.Admin.Sessions.Lifetime.{
  is_authenticated-handle_login, is_authenticated-handle_logout,
}
use proxy_balacer.Admin.Router.{
  Request, AdminState, Clock, call, router, guarded, validated, handler_of, has_suffix, extract_id,
  dashboard, trim_suffix, trim_prefix,
}
use proxy_balacer.Admin.Router.{delete}
use proxy_balacer.Admin.Router.Deletes.{router_deletes}

-- The token "t" in the form.
abbrev with_token : CsrfRequest
with_token = record { form = codes "t"; header = [] }

id_of_path : extract_id (codes "/backends/12/toggle") (codes "/backends/") ≡ codes "12"
unfolding extract_id trim_prefix trim_suffix has_suffix has_prefix ◌=ᵇ◌
id_of_path = refl

expired : (validate_csrf 5 with_token ((codes "t", 5) ∷ [])).0 ≡ false
unfolding validate_csrf token_of use_token lookup ◌=ᵇ◌
expired = refl

token_given : (token_of with_token =ᵇ []) ≡ false
unfolding token_of ◌=ᵇ◌
token_given = refl

validate_once_example :
    (validate_csrf 2 with_token
      (Tokens.run (Tokens.cleaned 1 ∷ []) (validate_csrf 1 with_token ((codes "t", 9) ∷ [])).1)).0
    ≡ false
unfolding Tokens.NotMade
validate_once_example =
    validate_once 1 2 with_token with_token (Tokens.cleaned 1 ∷ []) ((codes "t", 9) ∷ []) refl
      token_given (tt, tt)

validate-generate_csrf_example :
    (validate_csrf 9 with_token
      (Tokens.run (Tokens.cleaned 5 ∷ []) (generate_csrf 1 (token_of with_token) []))).0
    ≡ true
unfolding Tokens.Spares
validate-generate_csrf_example =
    validate-generate_csrf 1 9 with_token (Tokens.cleaned 5 ∷ []) [] token_given (omega arith, tt)
      (omega arith)

key_given : (codes "k" =ᵇ []) ≡ false
unfolding ◌=ᵇ◌
key_given = refl

no_row : has_token (codes "k") [] ≡ false
unfolding has_token
no_row = refl

is_authenticated-handle_login_example :
    let (cookie, rows) =
      handle_login 1 (codes "k") (codes "admin", codes "pw") (codes "admin", codes "pw") [] in
    is_authenticated 9 cookie (Lifetime.run (Lifetime.cleaned 5 ∷ []) rows) ≡ true
unfolding Lifetime.Spares
is_authenticated-handle_login_example =
    is_authenticated-handle_login 1 9 (codes "k") (codes "admin") (codes "pw")
      (Lifetime.cleaned 5 ∷ []) [] key_given no_row (omega arith, tt) (omega arith)

is_authenticated-handle_logout_example :
    is_authenticated 3 (some (codes "k")) (
      Lifetime.run
        (Lifetime.cleaned 2 ∷ [])
        (handle_logout (some (codes "k")) (record { token = codes "k"; expires_at = 9 } ∷ [])))
    ≡ false
unfolding Lifetime.NotMade
is_authenticated-handle_logout_example =
    is_authenticated-handle_logout (some (codes "k")) 3 (Lifetime.cleaned 2 ∷ [])
      (record { token = codes "k"; expires_at = 9 } ∷ []) (tt, tt)

abbrev home : Request
home = record {
  path = codes "/";
  method = codes "GET";
  session_cookie = some (codes "k");
  csrf = with_token;
  hx_request = false;
}

abbrev state : AdminState
state = record { csrf_tokens = []; sessions = record { token = codes "k"; expires_at = 9 } ∷ [] }

abbrev clock : Clock
clock = record { authenticated_at = 1; validated_at = 1; cleaned_at = 1 }

home_called : (router clock home state).0 ≡ call dashboard
unfolding router guarded validated handler_of has_suffix has_prefix is_authenticated has_row
    session_token ◌=ᵇ◌
home_called = refl

home_session : is_authenticated 1 (some (codes "k")) state.sessions ≡ true
unfolding is_authenticated has_row session_token ◌=ᵇ◌
home_session = refl

router_deletes_example :
    router clock (record home { method = delete }) state
    ≡ (call (handler_of (codes "/") delete), record state { csrf_tokens = cleanup_csrf 1 [] })
router_deletes_example = router_deletes clock home state home_session
