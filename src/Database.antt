-- ===== src/Database.antt =====
-- models.go: the tables, and what gorm does with them.
--
-- A table keeps its rows by their keys, and gives a new row the key after the last one that it ever gave.
-- SQLite does not enforce foreign keys here. What gorm makes of a text as a condition is in `Conditions`.
pub mod Rows
use proxy_balacer.Base.{
  ℕ, suc, Bytes, Bool, true, false, not, ◌&&◌, ◌||◌, List, [], ◌∷◌, ◌++◌, Option, none, some, ◌==◌,
  ◌=ᵇ◌, if◌then◌else◌, decimal, ◌≡◌,
}
use proxy_balacer.Models.{Backend, SubConfig, Client, Subscription}

pub record Table (A : Type 0) : Type 0 where
  pub rows : List A
  pub next : ℕ

-- `db.Create` of the row that `make` gives for its key.
unfoldable pub create : {A : Type 0} → (ℕ → A) → Table A → Table A
create make t = record { rows = t.rows ++ (make t.next ∷ []); next = suc t.next }

-- The rows that are not picked.
unfoldable pub reject : {A : Type 0} → (A → Bool) → List A → List A
reject p [] = []
reject p (x ∷ xs) = let rest = reject p xs in if p x then rest else x ∷ rest

-- The rows that are picked.
unfoldable pub select : {A : Type 0} → (A → Bool) → List A → List A
select p [] = []
select p (x ∷ xs) = let rest = select p xs in if p x then x ∷ rest else rest

unfoldable pub delete_where : {A : Type 0} → (A → Bool) → Table A → Table A
unfolding reject
delete_where p t = record t { rows = reject p t.rows }

unfoldable pub change : {A : Type 0} → (A → Bool) → (A → A) → List A → List A
change p f [] = []
change p f (x ∷ xs) = (if p x then f x else x) ∷ change p f xs

-- `db.Model(&row).Updates`.
unfoldable pub update_where : {A : Type 0} → (A → Bool) → (A → A) → Table A → Table A
unfolding change
update_where p f t = record t { rows = change p f t.rows }

-- `db.First`: the row with the least key that is picked.
unfoldable pub first_where : {A : Type 0} → (A → Bool) → List A → Option A
first_where p [] = none
first_where p (x ∷ xs) = let rest = first_where p xs in if p x then some x else rest

-- `db.Delete` with a text for the condition, which is refused where the text is empty.
unfoldable pub delete_by : {A : Type 0} → (Bytes → A → Bool) → Bytes → Table A → Table A
unfolding delete_where
delete_by cond [] t = t
delete_by cond (c ∷ s) t = delete_where (cond (c ∷ s)) t

pub record Database : Type 0 where
  pub backends : Table Backend
  pub sub_configs : Table SubConfig
  pub clients : Table Client
  pub subscriptions : Table Subscription
  pub subscription_configs : List (ℕ × ℕ)

-- The rows that a text picks as an inline condition, the empty one picking all, and the numbers that a text
-- equals in a comparison with a column.
pub record Conditions : Type 0 where
  pub backend : Bytes → Backend → Bool
  pub client : Bytes → Client → Bool
  pub subscription : Bytes → Subscription → Bool
  pub equals : Bytes → ℕ → Bool

-- As gorm documents it, a text that is a number picks by the key.
pub record ByKey (c : Conditions) : Type 0 where
  pub backend_key : (n : ℕ) (b : Backend) → c.backend (decimal n) b ≡ (b.id == n)
  pub client_key : (n : ℕ) (r : Client) → c.client (decimal n) r ≡ (r.id == n)
  pub subscription_key : (n : ℕ) (r : Subscription) → c.subscription (decimal n) r ≡ (r.id == n)
  pub equals_key : (n m : ℕ) → c.equals (decimal n) m ≡ (m == n)
