-- ===== src/Admin/Backends.antt =====
-- admin.go: the handlers that change backends, and main.go: the backends of the configuration file.
--
-- What a fetch comes to, whether the database accepts a row, and the time are arguments.
pub mod Imports
pub mod Changes
pub mod Sound
pub mod Refetch
use proxy_balacer.Base.{
  ℕ, Bytes, Bool, true, false, not, List, [], ◌∷◌, ◌++◌, Option, none, some, ◌=ᵇ◌, ◌==◌, ◌||◌,
  if◌then◌else◌, ℤ, pos, negsuc, Result, ok, err, panic, codes,
}
use proxy_balacer.Models.{Backend, SubConfig}
use proxy_balacer.Balancer.{Balancer, Env, reload, set_manual}
use proxy_balacer.Database.{
  Table, Database, Conditions, create, select, delete_where, delete_by, update_where, first_where,
}
use proxy_balacer.Links.{Library, ServerInfo, parse_backend_from_subscription}
use proxy_balacer.Links.Params.{RealityParams, extract_reality_params, parse_config_link_full}
use proxy_balacer.Links.Fetch.{Response, FetchError, fetch_subscription_url}

pub record Panel : Type 0 where
  pub db : Database
  pub balancer : Balancer

pub data RowError : Type 0 where
  fields_required no_configs no_server not_saved not_found : RowError
  fetch_failed : FetchError → RowError

-- `aborted` is a panic, which `net/http` recovers from in a handler.
pub data Reply : Type 0 where
  redirected : Bytes → Reply
  done aborted : Reply
  refused : RowError → Reply

pub record World : Type 0 where
  pub library : Library
  pub conditions : Conditions
  pub fetched : Response
  pub backend_saved : Bool
  pub config_saved : SubConfig → Bool
  pub now : ℕ

-- The rows that `loadBackends` asks for: the enabled ones, those that are primary first.
unfoldable pub enabled_rows : List Backend → List Backend
unfolding select
enabled_rows rows =
    let on = select (λ b. b.enabled) rows in
    select (λ b. b.primary) on ++ select (λ b. not b.primary) on

unfoldable pub reloaded : Panel → Panel
unfolding reload enabled_rows
reloaded p = record p { balancer = reload (enabled_rows p.db.backends.rows) p.balancer }

abbrev to_natural : ℤ → ℕ
to_natural (pos n) = n
to_natural (negsuc n) = 0

-- Whether all links were imported, with the rows; a panic ends the loop.
unfoldable pub import_one :
    (SubConfig → Bool)
    → Result (Unit {0}) SubConfig
    → (Table SubConfig → Bool × Table SubConfig)
    → Table SubConfig
    → Bool × Table SubConfig
unfolding create
import_one saved (ok cfg) again t =
    again (if saved cfg then create (λ i. record cfg { id = i }) t else t)
import_one saved (err e) again t = (false, t)
import_one saved panic again t = (false, t)

unfoldable pub import_configs : World → ℕ → List Bytes → Table SubConfig → Bool × Table SubConfig
unfolding import_one
import_configs wd backend_id [] t = (true, t)
import_configs wd backend_id (l ∷ ls) t =
    import_one wd.config_saved (parse_config_link_full wd.library l backend_id)
      (import_configs wd backend_id ls) t

abbrev with_configs : Database → Table SubConfig → Database
with_configs db t = record db { sub_configs = t }

unfoldable pub imported : Panel → Bool × Table SubConfig → Reply × Panel
unfolding reloaded
imported p (true, t) =
    (redirected (codes "/backends"), reloaded (record p { db = with_configs p.db t }))
imported p (false, t) = (aborted, record p { db = with_configs p.db t })

-- The form of a new backend.
pub record BackendForm : Type 0 where
  pub name : Bytes
  pub sub_url : Bytes
  pub primary : Bool

unfoldable pub new_backend : ℕ → BackendForm → ServerInfo → RealityParams → ℕ → Backend
new_backend now f i p id = record {
  id = id;
  name = f.name;
  sub_url = f.sub_url;
  host = i.host;
  port = to_natural i.port;
  sni = if p.sni =ᵇ [] then i.sni else p.sni;
  primary = f.primary;
  enabled = true;
  last_fetch = now;
  uuid = p.uuid;
  reality_pub_key = p.pbk;
  reality_short_id = p.sid;
  reality_spider_x = p.spx;
  fingerprint = p.fp;
  flow = p.flow;
}

unfoldable pub save_backend :
    World → BackendForm → List Bytes → ServerInfo → RealityParams → Panel → Reply × Panel
unfolding create new_backend import_configs imported
save_backend wd f links i r p =
    if wd.backend_saved
    then (let id = p.db.backends.next in
        let p1 = record p {
          db = record p.db { backends = create (new_backend wd.now f i r) p.db.backends };
        } in
        imported p1 (import_configs wd id links p1.db.sub_configs))
    else (refused not_saved, p)

unfoldable pub with_server :
    World
    → BackendForm
    → List Bytes
    → Result (Unit {0}) ServerInfo
    → Result (Unit {0}) RealityParams
    → Panel
    → Reply × Panel
unfolding save_backend
with_server wd f links (ok i) (ok r) p = save_backend wd f links i r p
with_server wd f links (ok i) (err e) p = (aborted, p)
with_server wd f links (ok i) panic p = (aborted, p)
with_server wd f links (err e) r p = (refused no_server, p)
with_server wd f links panic r p = (aborted, p)

unfoldable pub with_links :
    World → BackendForm → Result FetchError (List Bytes) → Panel → Reply × Panel
unfolding with_server
with_links wd f (ok []) p = (refused no_configs, p)
with_links wd f (ok (l ∷ ls)) p =
    with_server wd f (l ∷ ls) (parse_backend_from_subscription wd.library (l ∷ ls))
      (extract_reality_params wd.library l) p
with_links wd f (err e) p = (refused (fetch_failed e), p)
with_links wd f panic p = (aborted, p)

unfoldable pub add_backend : World → BackendForm → Panel → Reply × Panel
unfolding with_links
add_backend wd f p =
    if (f.name =ᵇ []) || (f.sub_url =ᵇ [])
    then (refused fields_required, p)
    else with_links wd f (fetch_subscription_url wd.fetched) p

-- The columns that a fetch sets.
unfoldable pub refreshed : ℕ → ServerInfo → RealityParams → Backend → Backend
refreshed now i p b = record b {
  host = i.host;
  port = to_natural i.port;
  sni = if p.sni =ᵇ [] then i.sni else p.sni;
  last_fetch = now;
  uuid = p.uuid;
  reality_pub_key = p.pbk;
  reality_short_id = p.sid;
  reality_spider_x = p.spx;
  fingerprint = p.fp;
  flow = p.flow;
}

unfoldable pub update_backend : ℕ → (Backend → Backend) → Database → Database
unfolding update_where
update_backend id f db = record db { backends = update_where (λ b. b.id == id) f db.backends }

unfoldable pub toggle_found : Option Backend → Panel → Reply × Panel
unfolding update_backend reloaded
toggle_found none p = (refused not_found, p)
toggle_found (some be) p = (
  done,
  reloaded
      (record p { db = update_backend be.id (λ b. record b { enabled = not be.enabled }) p.db }),
)

unfoldable pub toggle_backend : Conditions → Bytes → Panel → Reply × Panel
unfolding toggle_found first_where
toggle_backend c id p = toggle_found (first_where (c.backend id) p.db.backends.rows) p

unfoldable pub delete_backend : Conditions → Bytes → Panel → Reply × Panel
unfolding delete_where delete_by reloaded
delete_backend c id p = (
  done,
  reloaded (record p {
    db = record p.db {
      sub_configs = delete_where (λ r. c.equals id r.backend_id) p.db.sub_configs;
      backends = delete_by c.backend id p.db.backends;
    };
  }),
)

unfoldable pub set_active_server : Env → Bytes → Panel → Reply × Panel
unfolding set_manual
set_active_server env addr p =
    (redirected (codes "/"), record p { balancer = set_manual env addr p.balancer })
