-- ===== src/Admin/Subscriptions/Lifetime.antt =====
-- From when to when the address of a subscription answers.
use proxy_balacer.Base.{
  ℕ, ◌≡◌, refl, ap, ◌∙◌, Bytes, Bool, Bool-cases, true, false, List, [], ◌∷◌, ◌++◌, Option, none,
  some, ◌=ᵇ◌, text_eq_refl, decimal, length-decimal, codes, arith, inl, inr, eq→==,
}
use proxy_balacer.Models.{Subscription}
use proxy_balacer.Database.{
  Table, Database, Conditions, ByKey, create, reject, delete_where, first_where,
}
use proxy_balacer.Admin.Subscriptions.{
  SubscriptionForm, token_used, new_subscription, add_subscription, delete_subscription,
}
use proxy_balacer.Admin.Subscriptions.Answers.{
  Config, find_subscription, token_in, answer, client_link, subscription_endpoint,
}
use proxy_balacer.Admin.Subscriptions.Rows.{nonempty_delete}

found_last :
    (token : Bytes) (rows : List Subscription) (x : Subscription)
    → token_used token rows ≡ false
    → (x.token =ᵇ token) ≡ true
    → x.enabled ≡ true
    → find_subscription token (rows ++ (x ∷ [])) ≡ some x
unfolding find_subscription first_where token_used
found_last token [] x u e f = rw (e, f) refl
found_last token (s ∷ rows) x u e f = elim (Bool-cases (s.token =ᵇ token)) [
  | inl k ↦ absurd (ground (arith, k))
  | inr k ↦ rw k (found_last token rows x (ground (arith, k)) e f)
]

found_none :
    (token : Bytes) (p : Subscription → Bool) (rows : List Subscription) (x : Subscription)
    → token_used token rows ≡ false
    → p x ≡ true
    → find_subscription token (reject p (rows ++ (x ∷ []))) ≡ none
unfolding find_subscription first_where token_used reject
found_none token p [] x u e = rw e refl
found_none token p (s ∷ rows) x u e = elim (Bool-cases (s.token =ᵇ token)) [
  | inl k ↦ absurd (ground (arith, k))
  | inr k ↦ elim (Bool-cases (p s)) [
    | inl q ↦ rw q (found_none token p rows x (ground (arith, k)) e)
    | inr q ↦ rw (q, k) (found_none token p rows x (ground (arith, k)) e)
  ]
]

-- The table after a subscription is added.
added_rows :
    (token : Bytes) (f : SubscriptionForm) (db : Database)
    → token_used token db.subscriptions.rows ≡ false
    → (add_subscription true token f db).1.subscriptions.rows
      ≡ db.subscriptions.rows ++ (new_subscription f token db.subscriptions.next ∷ [])
unfolding add_subscription create
added_rows token f db u = rw u refl

new_fields :
    (token : Bytes) (f : SubscriptionForm) (n : ℕ)
    → ((new_subscription f token n).token ≡ token)
      × ((new_subscription f token n).enabled ≡ true)
      × ((new_subscription f token n).id ≡ n)
unfolding new_subscription
new_fields token f n = (refl, refl, refl)

deleted_rows :
    (c : Conditions) (n : ℕ) (db : Database)
    → (delete_subscription c (decimal n) db).1.subscriptions.rows
      ≡ reject (c.subscription (decimal n)) db.subscriptions.rows
unfolding delete_subscription delete_where
deleted_rows c n db =
    ap (λ (t : Table Subscription). t.rows)
      (nonempty_delete c.subscription (decimal n) db.subscriptions (length-decimal n))

endpoint_of :
    (cfg : Config) (rows : List Subscription) (path host : Bytes) (o : Option Subscription)
    → find_subscription (token_in path (codes ".txt")) rows ≡ o
    → (h : Bytes) × (subscription_endpoint cfg rows path host ≡ answer cfg h o)
unfolding subscription_endpoint
endpoint_of cfg rows path host o e = (_, ap (answer cfg _) e)

answer-some :
    (cfg : Config) (h : Bytes) (s : Subscription) → answer cfg h (some s) ≡ some (client_link cfg h)
unfolding answer
answer-some cfg h s = refl

answer-none : (cfg : Config) (h : Bytes) → answer cfg h none ≡ none
unfolding answer
answer-none cfg h = refl

-- A subscription that is made with a token that no other has answers with a link at the address with this
-- token; once it is deleted by the number that it was given, the answer is 404.
pub endpoint-add_subscription :
    (c : Conditions) (cfg : Config) (token path host : Bytes) (f : SubscriptionForm) (db : Database)
    → ByKey c
    → token_used token db.subscriptions.rows ≡ false
    → token_in path (codes ".txt") ≡ token
    → let one = (add_subscription true token f db).1 in
      let two = (delete_subscription c (decimal db.subscriptions.next) one).1 in
      ((h : Bytes) × (subscription_endpoint cfg one.subscriptions.rows path host
          ≡ some (client_link cfg h)))
      × (subscription_endpoint cfg two.subscriptions.rows path host ≡ none)
endpoint-add_subscription c cfg token path host f db k u t =
    let n = db.subscriptions.next in
    let x = new_subscription f token n in
    let one = (add_subscription true token f db).1 in
    let two = (delete_subscription c (decimal n) one).1 in
    let (a, b, i) = new_fields token f n in
    let here : find_subscription (token_in path (codes ".txt")) one.subscriptions.rows ≡ some x =
      rw (t, added_rows token f db u)
        (found_last token db.subscriptions.rows x u (ap (λ s. s =ᵇ token) a ∙ text_eq_refl token)
          b) in
    let gone : find_subscription (token_in path (codes ".txt")) two.subscriptions.rows ≡ none =
      rw (t, deleted_rows c n one, added_rows token f db u)
        (found_none token (c.subscription (decimal n)) db.subscriptions.rows x u
          (k.subscription_key n x ∙ eq→== x.id n i)) in
    let (h, p) = endpoint_of cfg one.subscriptions.rows path host (some x) here in
    let (g, q) = endpoint_of cfg two.subscriptions.rows path host none gone in
    ((h, p ∙ answer-some cfg h x), q ∙ answer-none cfg g)
