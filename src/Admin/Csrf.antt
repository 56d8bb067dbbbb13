-- ===== src/Admin/Csrf.antt =====
-- admin.go: the tokens against forged requests, from `generateCSRF` to `cleanupCSRF`.
--
-- A time is a number of nanoseconds; the random token is an argument.
pub mod Tokens
use proxy_balacer.Base.{
  ℕ, ◌+◌, Bytes, Bool, true, false, List, [], ◌∷◌, Option, none, some, lookup, insert, remove, ltb,
  ◌=ᵇ◌, if◌then◌else◌,
}

abbrev pub thirty_minutes : ℕ
thirty_minutes = 1_800_000_000_000

-- The token of the form field and of the header `X-CSRF-Token`; "" where a request has none.
pub record CsrfRequest : Type 0 where
  pub form : Bytes
  pub header : Bytes

-- Each token with the time at which it expires.
abbrev pub Tokens : Type 0
Tokens = List (Bytes × ℕ)

unfoldable pub generate_csrf : ℕ → Bytes → Tokens → Tokens
generate_csrf now token ts = insert token (now + thirty_minutes) ts

unfoldable pub token_of : CsrfRequest → Bytes
token_of r = if r.form =ᵇ [] then r.header else r.form

unfoldable pub use_token : ℕ → Bytes → Option ℕ → Tokens → Bool × Tokens
use_token now token none ts = (false, ts)
use_token now token (some expires) ts = (ltb now expires, remove token ts)

-- The answer of `validateCSRF`, and the tokens after it.
unfoldable pub validate_csrf : ℕ → CsrfRequest → Tokens → Bool × Tokens
unfolding token_of use_token
validate_csrf now r ts =
    if token_of r =ᵇ [] then (false, ts) else use_token now (token_of r) (lookup (token_of r) ts) ts

-- The loop over the entries of the map, which have different keys.
unfoldable pub cleanup_csrf : ℕ → Tokens → Tokens
cleanup_csrf now [] = []
cleanup_csrf now ((token, expires) ∷ ts) =
    if ltb expires now then cleanup_csrf now ts else (token, expires) ∷ cleanup_csrf now ts
