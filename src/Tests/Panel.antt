-- ===== src/Tests/Panel.antt =====
-- The tables behind the admin panel, and the links that it reads and gives, on concrete input.
use proxy_balacer.Base.{
  ℕ, ◌≡◌, refl, ap, sym, ◌∙◌, Bytes, Bool, Bool-cases, true, false, ◌&&◌, List, [], ◌∷◌, ◌++◌, none,
  some, All, ◌==◌, ==_iff, ◌=ᵇ◌, text_eq_refl, text_eq_sound, decimal, decimal-injective, codes,
  has_prefix, pos, ok, err, arith, inl, inr, not,
}
use proxy_balacer.Models.{Backend, SubConfig, Client}
use proxy_balacer.Balancer.{new_balancer, unreadable}
use proxy_balacer.Database.{Table, Conditions, ByKey, first_where}
use proxy_balacer.Database.Rows.{has_key}
use proxy_balacer.Base64.{
  is_blank, is_blank_2, is_blank_3, blank_at, trim_space, trim_left, trim_from, trim_right,
  drop_if_blank, is_one_blank, encode_std,
}
use proxy_balacer.Links.{
  Library, extract_server_info, vless_prefix, query_get, or_text, cut, before, host_port, query_sni,
  with_query, link_server, server_loop,
}
use proxy_balacer.Links.Params.{
  RealityParams, extract_reality_params, params_at, query_params, parse_config_link, link_info,
  fragment,
}
use proxy_balacer.Links.Fetch.{body, fetch_subscription_url}
use proxy_balacer.Links.Fetch.RoundTrip.{IsLine, fetch-encode_std}
use proxy_balacer.Links.Rewrite.{join_lines}
use proxy_balacer.Links.Remark.{proxy_to_backend-unnamed}
use proxy_balacer.Admin.Backends.{Panel, World, BackendForm}
use proxy_balacer.Admin.Backends.Imports.{IsSound}
use proxy_balacer.Admin.Backends.Sound.{Event, run, run-Sound}
use proxy_balacer.Admin.Router.{trim_prefix, trim_suffix, has_suffix}
use proxy_balacer.Admin.Subscriptions.{delete_client, has_pair}
use proxy_balacer.Admin.Subscriptions.Answers.{
  Config, subscription_endpoint, find_subscription, token_in,
}
use proxy_balacer.Admin.Subscriptions.Links.{user_of, extract-subscription_endpoint}
use proxy_balacer.Admin.Subscriptions.Rows.{subscription_key, delete_client-leaves_pairs}
use proxy_balacer.Vless.Uuid.{bad_length}
use proxy_balacer.Proxy.Upstream.{bad_uuid, proxy_to_backend}
use proxy_balacer.Tests.Proxy.{vision_backend, world, to_name, short_name, bytes_lem, all_bytes}

-- A text is a key where it prints it.
key_text : (m n : ℕ) → (decimal n =ᵇ decimal m) ≡ (m == n)
key_text m n = elim (Bool-cases (m == n)) [
  | inl e ↦
      rw e (ap (λ k. decimal k =ᵇ decimal m) (sym ((==_iff m n).0 e)) ∙ text_eq_refl (decimal m))
  | inr e ↦ elim (Bool-cases (decimal n =ᵇ decimal m)) [
    | inl f ↦
        absurd (ground (arith, e, decimal-injective n m (text_eq_sound (decimal n) (decimal m) f)))
    | inr f ↦ f ∙ sym e
  ]
]

abbrev pub printed : Conditions
printed = record {
  backend = λ s b. s =ᵇ decimal b.id;
  client = λ s r. s =ᵇ decimal r.id;
  subscription = λ s r. s =ᵇ decimal r.id;
  equals = λ s n. s =ᵇ decimal n;
}

pub printed-ByKey : ByKey printed
printed-ByKey = record {
  backend_key = λ n b. key_text b.id n;
  client_key = λ n r. key_text r.id n;
  subscription_key = λ n r. key_text r.id n;
  equals_key = λ n m. key_text m n;
}

abbrev library : Library
library = record {
  vmess = λ s. none;
  remark = λ s. none;
  fields = λ s. none;
  settings = λ s. ([], []);
  query = λ s. some [];
}

abbrev empty_table : (A : Type 0) → Table A
empty_table A = record { rows = []; next = 1 }

abbrev pub start : Panel
start = record {
  db = record {
    backends = empty_table Backend;
    sub_configs = empty_table SubConfig;
    clients = empty_table Client;
    subscriptions = record {
      rows = record { id = 7; client_id = 3; name = []; token = codes "t"; enabled = true } ∷ [];
      next = 8;
    };
    subscription_configs = (7, 5) ∷ [];
  };
  balancer = new_balancer false 0 0 unreadable [];
}

abbrev pub panel_world : World
panel_world = record {
  library = library;
  conditions = printed;
  fetched = body (codes "vless://u@h:1?x");
  backend_saved = true;
  config_saved = λ c. true;
  now = 5;
}

abbrev pub form : BackendForm
form = record { name = codes "a"; sub_url = codes "b"; primary = false }

abbrev events : List Event
events =
    Event.add panel_world form ∷ Event.refetch panel_world (codes "1") ∷ Event.delete printed 1 ∷ []

run-Sound_example : IsSound (run events start)
run-Sound_example = run-Sound events start (tt, (tt, (printed-ByKey, tt))) tt

delete_client-leaves_pairs_example :
    let r = (delete_client printed (decimal 3) start.db).1 in
    (has_key subscription_key 7 r.subscriptions.rows ≡ false)
    × (has_pair 7 5 r.subscription_configs ≡ true)
unfolding has_pair
delete_client-leaves_pairs_example =
    delete_client-leaves_pairs printed 3 7 5 start.db printed-ByKey ((λ e. refl), tt) refl

abbrev pub config : Config
config = record {
  public_host = codes "p.io";
  listen_addr = codes "0.0.0.0";
  listen_port = 443;
  proxy_uuid = codes "u";
}

found :
    find_subscription (token_in (codes "/sub/t.txt") (codes ".txt")) start.db.subscriptions.rows
    ≡ some (record { id = 7; client_id = 3; name = []; token = codes "t"; enabled = true })
unfolding find_subscription token_in first_where trim_prefix trim_suffix has_suffix has_prefix ◌=ᵇ◌
found = refl

extract-subscription_endpoint_example :
    (link : Bytes) × (subscription_endpoint config start.db.subscriptions.rows
        (codes "/sub/t.txt")
        (codes "x")
      ≡ some link)
    × (extract_server_info library link
        ≡ ok (record { host = codes "p.io"; port = pos 443; sni = query_sni (codes "p.io") [] }))
unfolding user_of ◌=ᵇ◌
extract-subscription_endpoint_example =
    extract-subscription_endpoint config start.db.subscriptions.rows (codes "/sub/t.txt")
      (codes "x") _ library [] refl (refl, tt) (refl, (refl, (refl, (refl, tt))))
      (refl, (refl, (refl, (refl, tt)))) (omega arith) found refl

feedless_bytes : Bytes → Bool
feedless_bytes [] = true
feedless_bytes (c ∷ s) = not (c == 10) && feedless_bytes s

feedless : (s : Bytes) → feedless_bytes s ≡ true → All (λ c. (c == 10) ≡ false) s
unfolding feedless_bytes
feedless [] h = tt
feedless (c ∷ s) h = (ground arith, feedless s (ground arith))

-- The first line has a space in it.
abbrev line_one : Bytes
line_one = codes "vless://u@h:1?x#a b"

abbrev line_two : Bytes
line_two = codes "ss://b"

two-IsLine : All IsLine (line_one ∷ line_two ∷ [])
unfolding blank_at trim_right drop_if_blank is_one_blank is_blank is_blank_2 is_blank_3 all_bytes
    feedless_bytes
two-IsLine = (
  (omega arith, bytes_lem line_one refl, feedless line_one refl, refl, refl),
  ((omega arith, bytes_lem line_two refl, feedless line_two refl, refl, refl), tt),
)

fetch-encode_std_example :
    fetch_subscription_url (body (encode_std (join_lines (line_one ∷ line_two ∷ []))))
    ≡ ok (line_one ∷ line_two ∷ [])
fetch-encode_std_example = fetch-encode_std line_one (line_two ∷ []) two-IsLine

-- A no-break space counts as blank at both ends.
trimmed : trim_space (0xC2 ∷ 0xA0 ∷ b'a' ∷ 32 ∷ 0xE2 ∷ 0x80 ∷ 0x89 ∷ []) ≡ b'a' ∷ []
unfolding trim_space trim_left trim_from trim_right blank_at drop_if_blank is_one_blank is_blank
    is_blank_2 is_blank_3
trimmed = refl

abbrev params : RealityParams
params = record { uuid = codes "vless"; sni = []; pbk = []; sid = []; spx = []; fp = []; flow = [] }

params_lem : extract_reality_params library (vless_prefix ++ codes "u@h:1?x") ≡ ok params
unfolding extract_reality_params params_at query_params parse_config_link link_info fragment
    extract_server_info server_loop link_server with_query query_sni query_get or_text host_port
    before cut has_prefix ◌=ᵇ◌
params_lem = refl

proxy_to_backend-unnamed_example :
    proxy_to_backend world.dialer world.backend_conn none
      (record vision_backend { uuid = codes "vless" })
      (to_name short_name)
    ≡ err (bad_uuid (bad_length 5))
proxy_to_backend-unnamed_example =
    proxy_to_backend-unnamed library (codes "u@h:1?x") params world.dialer world.backend_conn none
      (record vision_backend { uuid = codes "vless" }) (to_name short_name)
      (refl, (refl, (refl, (refl, (refl, (refl, (refl, tt))))))) params_lem refl
