-- ===== src/Admin/Backends/Changes.antt =====
-- The changes of backends that are in the table.
use proxy_balacer.Base.{
  ℕ, Bytes, Bool, true, not, List, [], ◌∷◌, Option-cases, some, ◌==◌, Result, ok, err, panic, ◌≡◌,
  refl, sym, ◌∙◌, arith, inl, inr, decimal, length, length-decimal, ◌≤◌,
}
use proxy_balacer.Models.{Backend, SubConfig}
use proxy_balacer.Database.{
  Table, Database, Conditions, ByKey, reject, delete_where, delete_by, update_where, first_where,
}
use proxy_balacer.Database.Rows.{All-reject, All-map, has_key, has_key-change, has_key-reject}
use proxy_balacer.Links.{ServerInfo}
use proxy_balacer.Links.Params.{RealityParams}
use proxy_balacer.Links.Fetch.{FetchError, fetch_subscription_url}
use proxy_balacer.Admin.Backends.{
  Panel, World, reloaded, import_configs, refreshed, update_backend, toggle_found, toggle_backend,
  delete_backend,
}
use proxy_balacer.Admin.Backends.Refetch.{
  replace_configs, refetched, refetch_links, refetch_found, refetch_backend,
}
use proxy_balacer.Admin.Backends.Imports.{
  backend_key, HasBackend, IsSound, import_lem, imported_lem,
}

-- A change that keeps the keys keeps the configurations' backends.
update_lem :
    (id : ℕ) (f : Backend → Backend) (p : Panel)
    → ((b : Backend) → (f b).id ≡ b.id)
    → IsSound p
    → IsSound (record p { db = update_backend id f p.db })
unfolding update_backend update_where
update_lem id f p e h =
    All-map (HasBackend p.db.backends.rows) _
      (λ c k. has_key-change backend_key c.backend_id (λ b. b.id == id) f p.db.backends.rows e ∙ k)
      p.db.sub_configs.rows h

update-has_key :
    (i id : ℕ) (f : Backend → Backend) (db : Database)
    → ((b : Backend) → (f b).id ≡ b.id)
    → has_key backend_key i db.backends.rows ≡ true
    → has_key backend_key i (update_backend id f db).backends.rows ≡ true
unfolding update_backend update_where
update-has_key i id f db e k =
    has_key-change backend_key i (λ b. b.id == id) f db.backends.rows e ∙ k

replace_lem :
    (wd : World) (id : ℕ) (links : List Bytes) (p : Panel)
    → has_key backend_key id p.db.backends.rows ≡ true
    → IsSound p
    → IsSound (replace_configs wd id links p).1
unfolding replace_configs delete_where
replace_lem wd id links p k h =
    let t : Table SubConfig = delete_where (λ c. c.backend_id == id) p.db.sub_configs in
    imported_lem p (import_configs wd id links t) (
      import_lem p.db.backends.rows wd id links t k (
        All-map _ (HasBackend p.db.backends.rows) (λ c q. q.0) t.rows
          (All-reject (HasBackend p.db.backends.rows) (λ c. c.backend_id == id)
            p.db.sub_configs.rows h)))

refetched_lem :
    (wd : World) (be : Backend) (links : List Bytes) (i : Result (Unit {0}) ServerInfo)
    (r : Result (Unit {0}) RealityParams) (p : Panel)
    → has_key backend_key be.id p.db.backends.rows ≡ true
    → IsSound p
    → IsSound (refetched wd be links i r p).1
unfolding refetched refreshed
refetched_lem wd be links (ok i) (ok r) p k h =
    replace_lem wd be.id links _
      (update-has_key be.id be.id (refreshed wd.now i r) p.db (λ b. refl) k)
      (update_lem be.id (refreshed wd.now i r) p (λ b. refl) h)
refetched_lem wd be links (ok i) (err e) p k h = h
refetched_lem wd be links (ok i) panic p k h = h
refetched_lem wd be links (err e) r p k h =
    replace_lem wd be.id links _
      (update-has_key be.id be.id (λ b. record b { last_fetch = wd.now }) p.db (λ b. refl) k)
      (update_lem be.id (λ b. record b { last_fetch = wd.now }) p (λ b. refl) h)
refetched_lem wd be links panic r p k h = h

refetch_links_lem :
    (wd : World) (be : Backend) (res : Result FetchError (List Bytes)) (p : Panel)
    → has_key backend_key be.id p.db.backends.rows ≡ true
    → IsSound p
    → IsSound (refetch_links wd be res p).1
unfolding refetch_links
refetch_links_lem wd be (ok links) p k h = refetched_lem wd be links _ _ p k h
refetch_links_lem wd be (err e) p k h = h
refetch_links_lem wd be panic p k h = h

-- The row that is found is in the table.
first-has_key :
    (q : Backend → Bool) (rows : List Backend) (be : Backend)
    → first_where q rows ≡ some be
    → has_key backend_key be.id rows ≡ true
unfolding first_where has_key
first-has_key q [] be e = cc
first-has_key q (x ∷ xs) be e = ground (arith, first-has_key q xs be)

pub refetch_backend-Sound :
    (wd : World) (id : Bytes) (p : Panel) → IsSound p → IsSound (refetch_backend wd id p).1
unfolding refetch_backend refetch_found
refetch_backend-Sound wd id p h =
    elim (Option-cases (first_where (wd.conditions.backend id) p.db.backends.rows)) [
      | inl e ↦ rw e h
      | inr (be, e) ↦ rw e (
          refetch_links_lem wd be (fetch_subscription_url wd.fetched) p
            (first-has_key (wd.conditions.backend id) p.db.backends.rows be e) h)
    ]

pub toggle_backend-Sound :
    (c : Conditions) (id : Bytes) (p : Panel) → IsSound p → IsSound (toggle_backend c id p).1
unfolding toggle_backend toggle_found reloaded
toggle_backend-Sound c id p h =
    elim (Option-cases (first_where (c.backend id) p.db.backends.rows)) [
      | inl e ↦ rw e h
      | inr (be, e) ↦
          rw e (update_lem be.id (λ b. record b { enabled = not be.enabled }) p (λ b. refl) h)
    ]

nonempty_delete :
    (cond : Bytes → Backend → Bool) (s : Bytes) (t : Table Backend)
    → 1 ≤ length s
    → delete_by cond s t ≡ delete_where (cond s) t
unfolding delete_by
nonempty_delete cond [] t h = absurd (omega arith)
nonempty_delete cond (c ∷ s) t h = refl

pub delete_backend-Sound :
    (c : Conditions) (n : ℕ) (p : Panel)
    → ByKey c
    → IsSound p
    → IsSound (delete_backend c (decimal n) p).1
unfolding delete_backend reloaded delete_where
delete_backend-Sound c n p k h =
    rw (nonempty_delete c.backend (decimal n) p.db.backends (length-decimal n)) (
      All-map _ _
        (λ r q.
          has_key-reject backend_key r.backend_id n (c.backend (decimal n)) p.db.backends.rows
            (k.backend_key n) (sym (k.equals_key n r.backend_id) ∙ q.1) q.0)
        (reject (λ r. c.equals (decimal n) r.backend_id) p.db.sub_configs.rows)
        (All-reject (HasBackend p.db.backends.rows) (λ r. c.equals (decimal n) r.backend_id)
          p.db.sub_configs.rows h))
