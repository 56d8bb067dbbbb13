-- ===== src/Admin/Backends/Sound.antt =====
-- The configurations in the database belong to backends in the database.
use proxy_balacer.Base.{ℕ, Bytes, List, [], ◌∷◌, All, decimal}
use proxy_balacer.Balancer.{Env}
use proxy_balacer.Database.{Conditions, ByKey}
use proxy_balacer.Admin.Backends.{
  Panel, World, BackendForm, add_backend, toggle_backend, delete_backend, set_active_server,
}
use proxy_balacer.Admin.Backends.Refetch.{refetch_backend}
use proxy_balacer.Admin.Backends.Imports.{IsSound, add_backend-Sound}
use proxy_balacer.Admin.Backends.Changes.{
  refetch_backend-Sound, toggle_backend-Sound, delete_backend-Sound,
}

-- The requests that change backends, a deletion being that of a number.
pub data Event : Type 0 where
  add : World → BackendForm → Event
  refetch : World → Bytes → Event
  toggle : Conditions → Bytes → Event
  delete : Conditions → ℕ → Event
  activate : Env → Bytes → Event

unfoldable pub apply : Event → Panel → Panel
apply (add wd f) p = (add_backend wd f p).1
apply (refetch wd id) p = (refetch_backend wd id p).1
apply (toggle c id) p = (toggle_backend c id p).1
apply (delete c n) p = (delete_backend c (decimal n) p).1
apply (activate env a) p = (set_active_server env a p).1

unfoldable pub run : List Event → Panel → Panel
unfolding apply
run [] p = p
run (e ∷ es) p = run es (apply e p)

-- A deletion's conditions are those that gorm documents.
abbrev pub Documented : Event → Type 0
Documented (delete c n) = ByKey c
Documented other = Unit

apply-Sound : (e : Event) (p : Panel) → Documented e → IsSound p → IsSound (apply e p)
unfolding apply set_active_server
apply-Sound (add wd f) p d h = add_backend-Sound wd f p h
apply-Sound (refetch wd id) p d h = refetch_backend-Sound wd id p h
apply-Sound (toggle c id) p d h = toggle_backend-Sound c id p h
apply-Sound (delete c n) p d h = delete_backend-Sound c n p d h
apply-Sound (activate env a) p d h = h

-- Where every configuration's backend is in the table, it stays so, whatever sequence of requests adds,
-- refetches, toggles or deletes backends or makes one active: whatever is fetched, also where the import
-- of a subscription ends in a panic, and whatever rows the database does not accept. What is deleted is
-- given by a number, and picked as gorm documents it.
pub run-Sound : (es : List Event) (p : Panel) → All Documented es → IsSound p → IsSound (run es p)
unfolding run
run-Sound [] p d h = h
run-Sound (e ∷ es) p (d, ds) h = run-Sound es (apply e p) ds (apply-Sound e p d h)
