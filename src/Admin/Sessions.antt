-- ===== src/Admin/Sessions.antt =====
-- admin.go: the sessions, which are rows of the database.
pub mod Lifetime
use proxy_balacer.Base.{
  ℕ, ◌+◌, Bytes, Bool, true, false, ◌&&◌, ◌||◌, not, List, [], ◌∷◌, ◌++◌, ltb, leb, ◌=ᵇ◌,
  if◌then◌else◌, Option, none, some,
}

pub record Session : Type 0 where
  pub token : Bytes
  pub expires_at : ℕ

abbrev pub thirty_days : ℕ
thirty_days = 2_592_000_000_000_000

-- A row has the token, expired or not.
unfoldable pub has_token : Bytes → List Session → Bool
has_token token [] = false
has_token token (s ∷ rows) = (s.token =ᵇ token) || has_token token rows

unfoldable pub append_row : ℕ → Bytes → List Session → List Session
append_row now token rows = rows ++ (record { token = token; expires_at = now + thirty_days } ∷ [])

-- The column of the tokens has a unique index, and the error of `Create` is dropped.
unfoldable pub create_session : ℕ → Bytes → List Session → List Session
unfolding append_row
create_session now token rows = if has_token token rows then rows else append_row now token rows

unfoldable pub delete_session : Bytes → List Session → List Session
delete_session token [] = []
delete_session token (s ∷ rows) =
    if s.token =ᵇ token then delete_session token rows else s ∷ delete_session token rows

-- `getSessionToken`: the value of the cookie, or "".
unfoldable pub session_token : Option Bytes → Bytes
session_token none = []
session_token (some token) = token

-- The query finds a row.
unfoldable pub has_row : ℕ → Bytes → List Session → Bool
has_row now token [] = false
has_row now token (s ∷ rows) =
    ((s.token =ᵇ token) && ltb now s.expires_at) || has_row now token rows

unfoldable pub is_authenticated : ℕ → Option Bytes → List Session → Bool
is_authenticated now cookie rows =
    if session_token cookie =ᵇ [] then false else has_row now (session_token cookie) rows

unfoldable pub cleanup_sessions : ℕ → List Session → List Session
cleanup_sessions now [] = []
cleanup_sessions now (s ∷ rows) =
    if leb s.expires_at now then cleanup_sessions now rows else s ∷ cleanup_sessions now rows

-- `handleLogin` with the new session's token, where the credentials are those of the configuration, and
-- `handleLogout`.
unfoldable pub handle_login :
    ℕ → Bytes → Bytes × Bytes → Bytes × Bytes → List Session → Option Bytes × List Session
handle_login now token (admin_user, admin_password) (user, password) rows =
    if (user =ᵇ admin_user) && (password =ᵇ admin_password)
    then (some token, create_session now token rows)
    else (none, rows)

unfoldable pub handle_logout : Option Bytes → List Session → List Session
handle_logout cookie rows = delete_session (session_token cookie) rows
