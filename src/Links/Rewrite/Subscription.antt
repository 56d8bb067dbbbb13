-- ===== src/Links/Rewrite/Subscription.antt =====
-- The text of a generated subscription, and its links.
use proxy_balacer.Base.{
  ℕ, ◌≤◌, ◌≡◌, refl, ap, ◌∙◌, Bytes, Bool-cases, false, List, [], ◌∷◌, ◌++◌, All, length, arith, ok,
  err, panic, Result, ◌=ᵇ◌, text_eq_sound, text_eq_refl, inl, inr, subst,
}
use proxy_balacer.Models.{SubConfig}
use proxy_balacer.Links.Fetch.{body, fetch_subscription_url}
use proxy_balacer.Links.Fetch.RoundTrip.{IsLine, fetch-encode_std}
use proxy_balacer.Links.Rewrite.{
  Remarshal, has_link, add_link, link_of, with_link, collect_links, encode_links,
  generate_subscription,
}

-- No link comes twice.
abbrev pub Distinct : List Bytes → Type 0
Distinct [] = Unit
Distinct (l ∷ ls) = (has_link l ls ≡ false) × Distinct ls

text_ne : (s t : Bytes) → (s =ᵇ t) ≡ false → (t =ᵇ s) ≡ false
text_ne s t h = elim (Bool-cases (t =ᵇ s)) [
  | inl e ↦ absurd (cc (h, text_eq_refl s, ap (λ x. s =ᵇ x) (text_eq_sound t s e)))
  | inr e ↦ e
]

has-append :
    (m l : Bytes) (ls : List Bytes)
    → has_link m ls ≡ false
    → (l =ᵇ m) ≡ false
    → has_link m (ls ++ (l ∷ [])) ≡ false
unfolding has_link
has-append m l [] h e = rw e refl
has-append m l (x ∷ ls) h e = ground (arith, has-append m l ls)

append-Distinct :
    (l : Bytes) (ls : List Bytes) → has_link l ls ≡ false → Distinct ls → Distinct (ls ++ (l ∷ []))
unfolding has_link
append-Distinct l [] h d = (refl, tt)
append-Distinct l (m ∷ ls) h (e, d) = (
  has-append m l ls e (text_ne m l (ground (arith, h))),
  append-Distinct l ls (ground (arith, h)) d,
)

add-Distinct : (l : Bytes) (ls : List Bytes) → Distinct ls → Distinct (add_link l ls)
unfolding add_link
add-Distinct l ls d = elim (Bool-cases (l =ᵇ [])) [
  | inl e ↦ rw e d
  | inr e ↦ elim (Bool-cases (has_link l ls)) [
    | inl h ↦ rw (e, h) d
    | inr h ↦ rw (e, h) (append-Distinct l ls h d)
  ]
]

with_lem :
    (r : Result (Unit {0}) Bytes) (again : List Bytes → Result (Unit {0}) (List Bytes))
    (ls links : List Bytes)
    → ((ms : List Bytes) → Distinct ms → again ms ≡ ok links → Distinct links)
    → Distinct ls
    → with_link r again ls ≡ ok links
    → Distinct links
unfolding with_link
with_lem (ok l) again ls links k d e = k (add_link l ls) (add-Distinct l ls d) e
with_lem (err f) again ls links k d e = absurd (cc)
with_lem panic again ls links k d e = absurd (cc)

links_or : Result (Unit {0}) (List Bytes) → List Bytes → List Bytes
links_or (ok ls) d = ls
links_or (err e) d = d
links_or panic d = d

collect-Distinct :
    (json : Remarshal) (other : SubConfig → Bytes) (host : Bytes) (port : ℕ) (cfgs : List SubConfig)
    (ls links : List Bytes)
    → Distinct ls
    → collect_links json other host port cfgs ls ≡ ok links
    → Distinct links
unfolding collect_links links_or
collect-Distinct json other host port [] ls links d e =
    subst Distinct (ap (λ r. links_or r links) e) d
collect-Distinct json other host port (cfg ∷ cfgs) ls links d e =
    with_lem (link_of json other host port cfg) (collect_links json other host port cfgs) ls links
      (λ ms c f. collect-Distinct json other host port cfgs ms links c f) d e

encoded :
    (links : List Bytes)
    → 1 ≤ length links
    → All IsLine links
    → (text : Bytes) × (encode_links (ok links) ≡ ok text)
      × (fetch_subscription_url (body text) ≡ ok links)
unfolding encode_links
encoded [] k h = absurd (omega arith)
encoded (l ∷ ls) k h = (_, refl, fetch-encode_std l ls h)

-- The links of the rows, rewritten, are taken once each; where there is one, and all are lines without a
-- blank, the text that is generated gives back just these links when it is fetched.
pub fetch-generate_subscription :
    (json : Remarshal) (other : SubConfig → Bytes) (cfgs : List SubConfig) (host : Bytes) (port : ℕ)
    (links : List Bytes)
    → collect_links json other host port cfgs [] ≡ ok links
    → 1 ≤ length links
    → All IsLine links
    → (text : Bytes) × (generate_subscription json other cfgs host port ≡ ok text)
      × (fetch_subscription_url (body text) ≡ ok links)
      × Distinct links
unfolding generate_subscription
fetch-generate_subscription json other cfgs host port links e k h =
    let (text, a, b) = encoded links k h in
    (text, ap encode_links e ∙ a, b, collect-Distinct json other host port cfgs [] links tt e)
