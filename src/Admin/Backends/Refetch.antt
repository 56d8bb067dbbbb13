-- ===== src/Admin/Backends/Refetch.antt =====
-- admin.go: `refetchBackend`.
use proxy_balacer.Base.{ℕ, Bytes, List, [], ◌∷◌, Option, none, some, ◌==◌, Result, ok, err, panic}
use proxy_balacer.Models.{Backend}
use proxy_balacer.Database.{delete_where, first_where}
use proxy_balacer.Links.{Library, ServerInfo, parse_backend_from_subscription}
use proxy_balacer.Links.Params.{RealityParams, extract_reality_params}
use proxy_balacer.Links.Fetch.{FetchError, fetch_subscription_url}
use proxy_balacer.Admin.Backends.{
  Panel, Reply, World, import_configs, imported, refreshed, update_backend, not_found, fetch_failed,
  aborted, refused,
}

-- The configurations of the backend are replaced.
unfoldable pub replace_configs : World → ℕ → List Bytes → Panel → Reply × Panel
unfolding delete_where import_configs imported
replace_configs wd id links p =
    let t = delete_where (λ c. c.backend_id == id) p.db.sub_configs in
    imported p (import_configs wd id links t)

unfoldable pub refetched :
    World
    → Backend
    → List Bytes
    → Result (Unit {0}) ServerInfo
    → Result (Unit {0}) RealityParams
    → Panel
    → Reply × Panel
unfolding update_backend replace_configs refreshed
refetched wd be links (ok i) (ok r) p =
    replace_configs wd be.id links
      (record p { db = update_backend be.id (refreshed wd.now i r) p.db })
refetched wd be links (ok i) (err e) p = (aborted, p)
refetched wd be links (ok i) panic p = (aborted, p)
refetched wd be links (err e) r p =
    replace_configs wd be.id links
      (record p { db = update_backend be.id (λ b. record b { last_fetch = wd.now }) p.db })
refetched wd be links panic r p = (aborted, p)

-- The parameters of the first link, of which there is one where a server was found.
abbrev first_params : Library → List Bytes → Result (Unit {0}) RealityParams
first_params lib [] = panic
first_params lib (l ∷ ls) = extract_reality_params lib l

unfoldable pub refetch_links :
    World → Backend → Result FetchError (List Bytes) → Panel → Reply × Panel
unfolding refetched
refetch_links wd be (ok links) p =
    refetched wd be links (parse_backend_from_subscription wd.library links)
      (first_params wd.library links) p
refetch_links wd be (err e) p = (refused (fetch_failed e), p)
refetch_links wd be panic p = (aborted, p)

unfoldable pub refetch_found : World → Option Backend → Panel → Reply × Panel
unfolding refetch_links
refetch_found wd none p = (refused not_found, p)
refetch_found wd (some be) p = refetch_links wd be (fetch_subscription_url wd.fetched) p

unfoldable pub refetch_backend : World → Bytes → Panel → Reply × Panel
unfolding refetch_found first_where
refetch_backend wd id p =
    refetch_found wd (first_where (wd.conditions.backend id) p.db.backends.rows) p
