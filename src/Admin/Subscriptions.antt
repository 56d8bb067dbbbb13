-- ===== src/Admin/Subscriptions.antt =====
-- admin.go: the handlers of clients and subscriptions, and what a subscription's address answers.
pub mod Links
pub mod Rows
pub mod Lifetime
pub mod Answers
use proxy_balacer.Base.{
  ℕ, suc, ◌+◌, ◌-◌, ◌*◌, ◌^◌, Bytes, Bool, true, false, not, ◌&&◌, ◌||◌, List, [], ◌∷◌, ◌++◌,
  Option, none, some, ◌=ᵇ◌, ◌==◌, leb, ltb, length, if◌then◌else◌, decimal, codes, min,
}
use proxy_balacer.Models.{Backend, addr, SubConfig, Client, Subscription}
use proxy_balacer.Database.{
  Table, Database, Conditions, create, reject, select, delete_where, delete_by, first_where,
}
use proxy_balacer.Admin.Router.{trim_prefix, trim_suffix}
use proxy_balacer.Links.{before}

pub data Reply : Type 0 where
  redirected : Bytes → Reply
  done not_saved : Reply

-- The digits of `strconv.ParseUint` in base ten, whatever the size.
unfoldable pub parse_digits : ℕ → Bytes → Option ℕ
parse_digits acc [] = some acc
parse_digits acc (c ∷ s) =
    let rest = parse_digits (acc * 10 + (c - 48)) s in
    if leb b'0' c && leb c b'9' then rest else none

-- The value and whether the error is nil: 0 for what is no number, and the greatest for one out of range.
unfoldable pub in_range : Option ℕ → ℕ × Bool
in_range none = (0, false)
in_range (some n) = (min n (2 ^ 64 - 1), ltb n (2 ^ 64))

unfoldable pub parse_uint : Bytes → ℕ × Bool
unfolding in_range parse_digits
parse_uint [] = (0, false)
parse_uint (c ∷ s) = in_range (parse_digits 0 (c ∷ s))

unfoldable pub add_client : Bool → Bytes → Bytes → Database → Reply × Database
unfolding create
add_client saved name email db =
    if saved
    then (
      redirected (codes "/clients"),
      record db {
        clients =
            create (λ i. record { id = i; name = name; email = email; enabled = true }) db.clients;
      },
    )
    else (not_saved, db)

unfoldable pub delete_client : Conditions → Bytes → Database → Reply × Database
unfolding delete_where delete_by
delete_client c id db = (
  done,
  record db {
    subscriptions = delete_where (λ s. c.equals id s.client_id) db.subscriptions;
    clients = delete_by c.client id db.clients;
  },
)

unfoldable pub token_used : Bytes → List Subscription → Bool
token_used token [] = false
token_used token (s ∷ ss) = (s.token =ᵇ token) || token_used token ss

unfoldable pub has_pair : ℕ → ℕ → List (ℕ × ℕ) → Bool
has_pair a b [] = false
has_pair a b ((x, y) ∷ ps) = ((x == a) && (y == b)) || has_pair a b ps

-- `INSERT`, which fails for a pair that is there, and for a number that SQLite cannot hold.
unfoldable pub insert_pair : ℕ → ℕ × Bool → List (ℕ × ℕ) → List (ℕ × ℕ)
unfolding has_pair
insert_pair a (b, false) ps = ps
insert_pair a (b, true) ps =
    if has_pair a b ps || not (ltb b (2 ^ 63)) then ps else ps ++ ((a, b) ∷ [])

unfoldable pub insert_configs : ℕ → List Bytes → List (ℕ × ℕ) → List (ℕ × ℕ)
unfolding insert_pair parse_uint
insert_configs a [] ps = ps
insert_configs a (s ∷ ss) ps = insert_configs a ss (insert_pair a (parse_uint s) ps)

pub record SubscriptionForm : Type 0 where
  pub client_id : Bytes
  pub name : Bytes
  pub config_ids : List Bytes

unfoldable pub new_subscription : SubscriptionForm → Bytes → ℕ → Subscription
unfolding parse_uint
new_subscription f token id = record {
  id = id;
  client_id = (parse_uint f.client_id).0;
  name = f.name;
  token = token;
  enabled = true;
}

-- The token is unique in its table.
unfoldable pub add_subscription : Bool → Bytes → SubscriptionForm → Database → Reply × Database
unfolding create token_used new_subscription insert_configs
add_subscription saved token f db =
    if saved && not (token_used token db.subscriptions.rows)
    then (
      redirected (codes "/subscriptions"),
      record db {
        subscriptions = create (new_subscription f token) db.subscriptions;
        subscription_configs =
            insert_configs db.subscriptions.next f.config_ids db.subscription_configs;
      },
    )
    else (not_saved, db)

unfoldable pub delete_subscription : Conditions → Bytes → Database → Reply × Database
unfolding reject delete_by
delete_subscription c id db = (
  done,
  record db {
    subscription_configs = reject (λ p. c.equals id p.0) db.subscription_configs;
    subscriptions = delete_by c.subscription id db.subscriptions;
  },
)

unfoldable pub of_backend : List SubConfig → Option Backend → List SubConfig
unfolding select
of_backend configs none = configs
of_backend configs (some be) =
    let found = select (λ c. c.backend_id == be.id) configs in
    elim found [ [] ↦ configs | c ∷ cs ↦ c ∷ cs ]

-- `filterActiveConfigs`, for the active address.
unfoldable pub filter_active_configs : Bytes → List Backend → List SubConfig → List SubConfig
unfolding of_backend first_where
filter_active_configs active backends configs =
    if active =ᵇ []
    then configs
    else of_backend configs (first_where (λ b. b.enabled && (addr b =ᵇ active)) backends)
