-- ===== src/Setup/Seed.antt =====
-- main.go: `seedBackendsFromConfig`.
--
-- Each backend of the file is fetched twice, for its row and for its configurations. A panic ends the
-- process; the rows that were made before it stay.
use proxy_balacer.Base.{
  ℕ, Bytes, Bool, true, false, List, [], ◌∷◌, Option, none, some, if◌then◌else◌, pos, Result, ok,
  err, panic,
}
use proxy_balacer.Models.{Backend}
use proxy_balacer.Database.{Database, create}
use proxy_balacer.Links.{ServerInfo, parse_backend_from_subscription}
use proxy_balacer.Links.Params.{RealityParams, extract_reality_params}
use proxy_balacer.Links.Fetch.{Response, FetchError, fetch_subscription_url}
use proxy_balacer.Admin.Backends.{World, import_configs, refreshed}
use proxy_balacer.Setup.{ConfigBackend}

-- The answers to the two fetches of each URL, beside what the panel asks for.
pub record SeedWorld : Type 0 where
  pub world : World
  pub first_fetch : Bytes → Response
  pub second_fetch : Bytes → Response

unfoldable pub blank_backend : ConfigBackend → Backend
blank_backend cb = record {
  id = 0;
  name = cb.name;
  sub_url = cb.sub_url;
  host = [];
  port = 0;
  sni = [];
  primary = cb.primary;
  enabled = true;
  last_fetch = 0;
  uuid = [];
  reality_pub_key = [];
  reality_short_id = [];
  reality_spider_x = [];
  fingerprint = [];
  flow = [];
}

-- The server of the links, if there is one, and the parameters of the first.
unfoldable pub filled :
    ℕ → Backend → Result (Unit {0}) ServerInfo → Result (Unit {0}) RealityParams → Option Backend
unfolding refreshed
filled now b (ok i) (ok r) = some (refreshed now i r b)
filled now b (ok i) (err e) = none
filled now b (ok i) panic = none
filled now b (err e) (ok r) =
    some (refreshed now (record { host = b.host; port = pos b.port; sni = b.sni }) r b)
filled now b (err e) (err f) = none
filled now b (err e) panic = none
filled now b panic r = none

unfoldable pub seed_row : World → ConfigBackend → Result FetchError (List Bytes) → Option Backend
unfolding filled blank_backend
seed_row wd cb (ok (l ∷ ls)) =
    filled wd.now (blank_backend cb) (parse_backend_from_subscription wd.library (l ∷ ls))
      (extract_reality_params wd.library l)
seed_row wd cb (ok []) = some (blank_backend cb)
seed_row wd cb (err e) = some (blank_backend cb)
seed_row wd cb panic = none

unfoldable pub seed_configs :
    World → ℕ → Result FetchError (List Bytes) → Database → Bool × Database
unfolding import_configs
seed_configs wd id (ok links) db =
    let (whole, t) = import_configs wd id links db.sub_configs in
    (whole, record db { sub_configs = t })
seed_configs wd id (err e) db = (true, db)
seed_configs wd id panic db = (false, db)

unfoldable pub save_row :
    World → Result FetchError (List Bytes) → Option Backend → Database → Bool × Database
unfolding seed_configs create
save_row wd links none db = (false, db)
save_row wd links (some b) db =
    if wd.backend_saved
    then seed_configs wd db.backends.next links
        (record db { backends = create (λ i. record b { id = i }) db.backends })
    else (true, db)

-- Whether the process goes on, with the database.
unfoldable pub seed_one : SeedWorld → ConfigBackend → Database → Bool × Database
unfolding seed_row save_row
seed_one sw cb db =
    save_row sw.world (fetch_subscription_url (sw.second_fetch cb.sub_url))
      (seed_row sw.world cb (fetch_subscription_url (sw.first_fetch cb.sub_url))) db

unfoldable pub seed_all : SeedWorld → List ConfigBackend → Database → Bool × Database
unfolding seed_one
seed_all sw [] db = (true, db)
seed_all sw (cb ∷ cbs) db =
    let (on, db1) = seed_one sw cb db in
    let rest = seed_all sw cbs db1 in if on then rest else (false, db1)

-- Only a database with no backend is seeded.
unfoldable pub seed_backends_from_config :
    SeedWorld → List ConfigBackend → Database → Bool × Database
unfolding seed_all
seed_backends_from_config sw cbs db = elim db.backends.rows [
  | [] ↦ seed_all sw cbs db
  | b ∷ bs ↦ (true, db)
]
