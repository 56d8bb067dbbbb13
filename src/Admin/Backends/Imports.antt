-- ===== src/Admin/Backends/Imports.antt =====
-- The import of a subscription, for a backend that is new or is there.
use proxy_balacer.Base.{
  ℕ, Bytes, Bool, Bool-cases, true, false, List, [], ◌∷◌, ◌++◌, ◌=ᵇ◌, ◌||◌, if◌then◌else◌, Result,
  ok, err, panic, ◌≡◌, All, All-append, inl, inr,
}
use proxy_balacer.Models.{Backend, SubConfig}
use proxy_balacer.Database.{Table, create}
use proxy_balacer.Database.Rows.{All-map, has_key, has_key-append, has_key-last}
use proxy_balacer.Links.{Library, ServerInfo, extract_server_info, parse_backend_from_subscription}
use proxy_balacer.Links.Params.{
  LinkInfo, RealityParams, extract_reality_params, parse_config_link, parse_config_link_full,
  full_at,
}
use proxy_balacer.Links.Fetch.{FetchError, fetch_subscription_url}
use proxy_balacer.Admin.Backends.{
  Panel, World, BackendForm, reloaded, import_one, import_configs, imported, new_backend,
  save_backend, with_server, with_links, add_backend,
}

abbrev pub backend_key : Backend → ℕ
backend_key b = b.id

-- The configuration's backend is in the table.
abbrev pub HasBackend : List Backend → SubConfig → Type 0
HasBackend rows c = has_key backend_key c.backend_id rows ≡ true

-- Every configuration's backend is in the table.
abbrev pub IsSound : Panel → Type 0
IsSound p = All (HasBackend p.db.backends.rows) p.db.sub_configs.rows

appended :
    (rows : List Backend) (c : SubConfig) (xs : List SubConfig)
    → All (HasBackend rows) xs
    → HasBackend rows c
    → All (HasBackend rows) (xs ++ (c ∷ []))
appended rows c xs h k = All-append (HasBackend rows) xs (c ∷ []) h (k, tt)

saved_or_not :
    (rows : List Backend) (saved : SubConfig → Bool) (c : SubConfig) (t : Table SubConfig)
    → All (HasBackend rows) t.rows
    → HasBackend rows c
    → All (HasBackend rows) (if saved c then create (λ i. record c { id = i }) t else t).rows
unfolding create
saved_or_not rows saved c t h k = elim (Bool-cases (saved c)) [
  | inl e ↦ rw e (appended rows (record c { id = t.next }) t.rows h k)
  | inr e ↦ rw e h
]

one_lem :
    (rows : List Backend) (saved : SubConfig → Bool) (lib : Library) (link : Bytes) (id : ℕ)
    (l : LinkInfo) (res : Result (Unit {0}) ServerInfo)
    (again : Table SubConfig → Bool × Table SubConfig) (t : Table SubConfig)
    → has_key backend_key id rows ≡ true
    → All (HasBackend rows) t.rows
    → ((t1 : Table SubConfig)
        → All (HasBackend rows) t1.rows
        → All (HasBackend rows) (again t1).1.rows)
    → All (HasBackend rows) (import_one saved (full_at lib link id l res) again t).1.rows
unfolding import_one full_at
one_lem rows saved lib link id l (ok i) again t k h f = f _ (saved_or_not rows saved _ t h k)
one_lem rows saved lib link id l (err e) again t k h f = h
one_lem rows saved lib link id l panic again t k h f = h

pub import_lem :
    (rows : List Backend) (wd : World) (id : ℕ) (links : List Bytes) (t : Table SubConfig)
    → has_key backend_key id rows ≡ true
    → All (HasBackend rows) t.rows
    → All (HasBackend rows) (import_configs wd id links t).1.rows
unfolding import_configs parse_config_link_full
import_lem rows wd id [] t k h = h
import_lem rows wd id (l ∷ ls) t k h =
    one_lem rows wd.config_saved wd.library l id (parse_config_link wd.library l)
      (extract_server_info wd.library l) (import_configs wd id ls) t k h
      (λ t1 h1. import_lem rows wd id ls t1 k h1)

pub imported_lem :
    (p : Panel) (r : Bool × Table SubConfig)
    → All (HasBackend p.db.backends.rows) r.1.rows
    → IsSound (imported p r).1
unfolding imported reloaded
imported_lem p (true, t) h = h
imported_lem p (false, t) h = h

save_lem :
    (wd : World) (f : BackendForm) (links : List Bytes) (i : ServerInfo) (r : RealityParams)
    (p : Panel)
    → IsSound p
    → IsSound (save_backend wd f links i r p).1
unfolding save_backend create new_backend
save_lem wd f links i r p h = elim (Bool-cases wd.backend_saved) [
  | inl e ↦ rw e (
      imported_lem
        (record p {
          db = record p.db { backends = create (new_backend wd.now f i r) p.db.backends };
        })
        _
        (import_lem _ wd p.db.backends.next links p.db.sub_configs
          (has_key-last backend_key (new_backend wd.now f i r p.db.backends.next)
            p.db.backends.rows)
          (All-map (HasBackend p.db.backends.rows) _
            (λ c k.
              has_key-append backend_key c.backend_id p.db.backends.rows
                (new_backend wd.now f i r p.db.backends.next ∷ []) k)
            p.db.sub_configs.rows h)))
  | inr e ↦ rw e h
]

server_lem :
    (wd : World) (f : BackendForm) (links : List Bytes) (i : Result (Unit {0}) ServerInfo)
    (r : Result (Unit {0}) RealityParams) (p : Panel)
    → IsSound p
    → IsSound (with_server wd f links i r p).1
unfolding with_server
server_lem wd f links (ok i) (ok r) p h = save_lem wd f links i r p h
server_lem wd f links (ok i) (err e) p h = h
server_lem wd f links (ok i) panic p h = h
server_lem wd f links (err e) r p h = h
server_lem wd f links panic r p h = h

links_lem :
    (wd : World) (f : BackendForm) (res : Result FetchError (List Bytes)) (p : Panel)
    → IsSound p
    → IsSound (with_links wd f res p).1
unfolding with_links
links_lem wd f (ok []) p h = h
links_lem wd f (ok (l ∷ ls)) p h =
    server_lem wd f (l ∷ ls) (parse_backend_from_subscription wd.library (l ∷ ls))
      (extract_reality_params wd.library l) p h
links_lem wd f (err e) p h = h
links_lem wd f panic p h = h

pub add_backend-Sound :
    (wd : World) (f : BackendForm) (p : Panel) → IsSound p → IsSound (add_backend wd f p).1
unfolding add_backend
add_backend-Sound wd f p h = elim (Bool-cases ((f.name =ᵇ []) || (f.sub_url =ᵇ []))) [
  | inl e ↦ rw e h
  | inr e ↦ rw e (links_lem wd f (fetch_subscription_url wd.fetched) p h)
]
