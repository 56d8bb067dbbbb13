-- ===== src/Admin/Subscriptions/Rows.antt =====
-- What is left of clients and subscriptions that are deleted.
use proxy_balacer.Base.{
  ℕ, ◌≡◌, refl, ◌∙◌, Bytes, Bool, Bool-cases, true, false, List, [], ◌∷◌, ◌==◌, decimal, length,
  length-decimal, ◌≤◌, All, arith, inl, inr,
}
use proxy_balacer.Models.{Subscription}
use proxy_balacer.Database.{Table, Database, Conditions, ByKey, reject, delete_where, delete_by}
use proxy_balacer.Database.Rows.{has_key}
use proxy_balacer.Admin.Subscriptions.{delete_client, delete_subscription, has_pair}

abbrev pub subscription_key : Subscription → ℕ
subscription_key s = s.id

-- The subscriptions with the key `a` are of the client `n`.
abbrev pub OfClient : ℕ → ℕ → Subscription → Type 0
OfClient a n s = (s.id == a) ≡ true → (s.client_id == n) ≡ true

gone :
    (a : ℕ) (p : Subscription → Bool) (rows : List Subscription)
    → All (λ s. (s.id == a) ≡ true → p s ≡ true) rows
    → has_key subscription_key a (reject p rows) ≡ false
unfolding has_key reject
gone a p [] h = refl
gone a p (s ∷ rows) (k, h) = elim (Bool-cases (s.id == a)) [
  | inl e ↦ rw (k e) (gone a p rows h)
  | inr e ↦ elim (Bool-cases (p s)) [
    | inl f ↦ rw f (gone a p rows h)
    | inr f ↦ rw (f, e) (gone a p rows h)
  ]
]

picked :
    (c : Conditions) (n a : ℕ) (rows : List Subscription)
    → ByKey c
    → All (OfClient a n) rows
    → All (λ s. (s.id == a) ≡ true → c.equals (decimal n) s.client_id ≡ true) rows
picked c n a [] k h = tt
picked c n a (s ∷ rows) k (f, h) = ((λ e. k.equals_key n s.client_id ∙ f e), picked c n a rows k h)

-- A client that is deleted by its number takes its subscriptions with it, but not the rows that give these
-- their configurations: such a row stays when there is no subscription with its key.
pub delete_client-leaves_pairs :
    (c : Conditions) (n a b : ℕ) (db : Database)
    → ByKey c
    → All (OfClient a n) db.subscriptions.rows
    → has_pair a b db.subscription_configs ≡ true
    → let r = (delete_client c (decimal n) db).1 in
      (has_key subscription_key a r.subscriptions.rows ≡ false)
      × (has_pair a b r.subscription_configs ≡ true)
unfolding delete_client delete_where
delete_client-leaves_pairs c n a b db k h p = (
  gone a (λ s. c.equals (decimal n) s.client_id) db.subscriptions.rows
      (picked c n a db.subscriptions.rows k h),
  p,
)

pub nonempty_delete :
    (cond : Bytes → Subscription → Bool) (s : Bytes) (t : Table Subscription)
    → 1 ≤ length s
    → delete_by cond s t ≡ delete_where (cond s) t
unfolding delete_by
nonempty_delete cond [] t h = absurd (omega arith)
nonempty_delete cond (x ∷ s) t h = refl

no_pairs :
    (n b : ℕ) (p : ℕ × ℕ → Bool) (ps : List (ℕ × ℕ))
    → ((q : ℕ × ℕ) → p q ≡ (q.0 == n))
    → has_pair n b (reject p ps) ≡ false
unfolding has_pair reject
no_pairs n b p [] h = refl
no_pairs n b p ((x, y) ∷ ps) h = elim (Bool-cases (x == n)) [
  | inl e ↦ rw (h (x, y), e) (no_pairs n b p ps h)
  | inr e ↦ rw (h (x, y), e) (rw e (no_pairs n b p ps h))
]

key_gone :
    (c : Conditions) (n : ℕ) (rows : List Subscription)
    → ByKey c
    → All (λ s. (s.id == n) ≡ true → c.subscription (decimal n) s ≡ true) rows
key_gone c n [] k = tt
key_gone c n (s ∷ rows) k = ((λ e. k.subscription_key n s ∙ e), key_gone c n rows k)

-- A subscription that is deleted by its number is gone with all the rows that give it configurations.
pub delete_subscription-clean :
    (c : Conditions) (n b : ℕ) (db : Database)
    → ByKey c
    → let r = (delete_subscription c (decimal n) db).1 in
      (has_key subscription_key n r.subscriptions.rows ≡ false)
      × (has_pair n b r.subscription_configs ≡ false)
unfolding delete_subscription delete_where
delete_subscription-clean c n b db k =
    rw (nonempty_delete c.subscription (decimal n) db.subscriptions (length-decimal n)) (
      gone n (c.subscription (decimal n)) db.subscriptions.rows
          (key_gone c n db.subscriptions.rows k),
      no_pairs n b (λ p. c.equals (decimal n) p.0) db.subscription_configs
          (λ q. k.equals_key n q.0),
    )
