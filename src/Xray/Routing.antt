-- ===== src/Xray/Routing.antt =====
-- What a rewrite of the routing rules does to a configuration.
use proxy_balacer.Base.{
  Bytes, true, codes, [], ◌∷◌, none, some, has_prefix, ◌≡◌, ◌≢◌, refl, sym, ap, ◌∙◌, ◌⊎◌, inl, inr,
  arith, Bool-cases, Option-cases, text_eq_iff,
}
use proxy_balacer.Json.{
  Json, null, str, arr, obj, Items, nil, cons, Fields, get_field, set_field, as_string, as_array,
  get-set, set-set,
}
use proxy_balacer.Xray.Rules.{
  Keeps, AllProxy, inbounds, filter-Keeps, filter-AllProxy, filter-filter, filter_own,
  manual_rule-own, manual_rule_lem,
}
use proxy_balacer.Xray.{
  proxy_prefix, is_proxy_rule, filter_rules, rules_value, new_rules, routing_rules, rewrite_config,
  manual_rule, find_outbound_tag, outbound_has, search_outbounds,
}

outbound_prefix :
    (addr : Bytes) (ob : Fields)
    → outbound_has addr ob ≡ true
    → has_prefix (as_string (get_field (codes "tag") ob)) proxy_prefix ≡ true
unfolding outbound_has
outbound_prefix addr ob h = ground arith

-- A tag that is found is not empty and begins as those of the balancer do.
search_prefix :
    (addr : Bytes) (os : Items)
    → (search_outbounds addr os ≡ []) ⊎ (has_prefix (search_outbounds addr os) proxy_prefix ≡ true)
unfolding search_outbounds outbound_has
search_prefix addr nil = inl refl
search_prefix addr (cons (obj ob) os) = elim (Bool-cases (outbound_has addr ob)) [
  | inl hit ↦ rw hit (inr (outbound_prefix addr ob hit))
  | inr miss ↦ rw miss (search_prefix addr os)
]
search_prefix addr (cons o os) = search_prefix addr os

find_prefix :
    (addr : Bytes) (cfg : Fields)
    → (find_outbound_tag addr cfg ≡ [])
      ⊎ (has_prefix (find_outbound_tag addr cfg) proxy_prefix ≡ true)
unfolding find_outbound_tag
find_prefix addr cfg = elim (Option-cases (as_array (get_field (codes "outbounds") cfg))) [
  | inl e ↦ rw (e, find_outbound_tag) (inl refl)
  | inr (os, e) ↦ rw (e, find_outbound_tag) (search_prefix addr os)
]

-- What a rewrite that takes place leaves.
abbrev rewritten : Bytes → Fields → Fields → Items → Fields
rewritten addr cfg routing rules =
    set_field (codes "routing") (obj (set_field (codes "rules") (new_rules addr cfg rules) routing))
      cfg

abbrev new_routing : Bytes → Fields → Fields → Items → Fields
new_routing addr cfg routing rules = set_field (codes "rules") (new_rules addr cfg rules) routing

rewrite_some :
    (addr : Bytes) (cfg routing : Fields) (rules : Items)
    → routing_rules cfg ≡ some (routing, rules)
    → rewrite_config addr cfg ≡ some (rewritten addr cfg routing rules)
unfolding rewrite_config
rewrite_some addr cfg routing rules e = rw (e, rewrite_config)

rewrite_none :
    (addr : Bytes) (cfg : Fields) → routing_rules cfg ≡ none → rewrite_config addr cfg ≡ none
unfolding rewrite_config
rewrite_none addr cfg e = rw (e, rewrite_config)

get-set_self : (k : Bytes) (v : Json) (fs : Fields) → get_field k (set_field k v fs) ≡ some v
get-set_self k v fs = ground (arith, get-set k k v fs, text_eq_iff k k)

get-set_ne :
    (k j : Bytes) (v : Json) (fs : Fields) → j ≢ k → get_field j (set_field k v fs) ≡ get_field j fs
get-set_ne k j v fs n = ground (arith, get-set k j v fs, text_eq_iff k j)

routing_rules_at :
    (cfg routing : Fields) (v : Json)
    → get_field (codes "routing") cfg ≡ some (obj routing)
    → get_field (codes "rules") routing ≡ some v
    → routing_rules cfg
      ≡ elim (as_array (some v)) [ none ↦ none | some rules ↦ some (routing, rules) ]
unfolding routing_rules
routing_rules_at cfg routing v e f = rw (e, routing_rules) (rw (f, routing_rules))

routing_rules-rewritten :
    (addr : Bytes) (cfg routing : Fields) (rules : Items) (v : Json)
    → new_rules addr cfg rules ≡ v
    → routing_rules (rewritten addr cfg routing rules) ≡ elim (as_array (some v)) [
      | none ↦ none
      | some kept ↦ some (new_routing addr cfg routing rules, kept)
    ]
routing_rules-rewritten addr cfg routing rules v e =
    routing_rules_at (rewritten addr cfg routing rules) (new_routing addr cfg routing rules) v
      (get-set_self (codes "routing") _ cfg) (get-set_self (codes "rules") _ routing ∙ ap some e)

routing-ne-outbounds : codes "outbounds" ≢ codes "routing"
routing-ne-outbounds e = cc

-- The outbounds are not touched, so the tag is found again.
find-rewritten :
    (addr b : Bytes) (cfg routing : Fields) (rules : Items)
    → find_outbound_tag b (rewritten addr cfg routing rules) ≡ find_outbound_tag b cfg
unfolding find_outbound_tag
find-rewritten addr b cfg routing rules =
    ap (λ o. elim (as_array o) [ none ↦ [] | some os ↦ search_outbounds b os ])
      (get-set_ne (codes "routing") (codes "outbounds") _ cfg routing-ne-outbounds)

new_rules-found :
    (addr tag : Bytes) (cfg : Fields) (rules : Items)
    → addr ≢ []
    → tag ≢ []
    → find_outbound_tag addr cfg ≡ tag
    → new_rules addr cfg rules ≡ arr (cons (manual_rule tag) (filter_rules rules))
unfolding new_rules
new_rules-found [] tag cfg rules a t e = absurd (a refl)
new_rules-found (c ∷ s) [] cfg rules a t e = absurd (t refl)
new_rules-found (c ∷ s) (d ∷ r) cfg rules a t e = rw (e, new_rules)

new_rules-null :
    (addr : Bytes) (cfg : Fields) (rules : Items)
    → find_outbound_tag addr cfg ≡ []
    → filter_rules rules ≡ nil
    → new_rules addr cfg rules ≡ null
unfolding new_rules rules_value
new_rules-null [] cfg rules e n = rw n
new_rules-null (c ∷ s) cfg rules e n = rw (e, n, new_rules)

-- Of two rewrites of the rules only the second shows.
rewritten_twice :
    (addr : Bytes) (cfg routing : Fields) (rules rules' : Items)
    → new_rules addr (rewritten addr cfg routing rules) rules' ≡ new_rules addr cfg rules
    → rewritten addr (rewritten addr cfg routing rules) (new_routing addr cfg routing rules) rules'
      ≡ rewritten addr cfg routing rules
rewritten_twice addr cfg routing rules rules' e =
    set-set (codes "routing") _ _ cfg
    ∙ ap (λ r. set_field (codes "routing") (obj r) cfg)
        (set-set (codes "rules") _ _ routing ∙ ap (λ v. set_field (codes "rules") v routing) e)

-- Where the configuration has routing rules, the address is not empty and an outbound has it, a rewrite
-- puts one rule first that sends the traffic of the two VLESS inbounds to that outbound, keeps the rules
-- that are not the balancer's own in their order and no others, and leaves all other fields; the rule is
-- one of the balancer's own, and a second rewrite for the same address changes nothing.
pub rewrite_routes :
    (addr : Bytes) (cfg routing : Fields) (rules : Items)
    → routing_rules cfg ≡ some (routing, rules)
    → addr ≢ []
    → find_outbound_tag addr cfg ≢ []
    → (cfg' : Fields) × (routing' : Fields) × (rewrite_config addr cfg ≡ some cfg')
      × (rule : Fields) × (kept : Items) × (routing_rules cfg'
          ≡ some (routing', cons (obj rule) kept))
      × (get_field (codes "outboundTag") rule ≡ some (str (find_outbound_tag addr cfg)))
      × (get_field (codes "inboundTag") rule ≡ some (arr inbounds))
      × (is_proxy_rule (obj rule) ≡ true)
      × Keeps rules kept
      × ((k : Bytes) → k ≢ codes "routing" → get_field k cfg' ≡ get_field k cfg)
      × ((k : Bytes) → k ≢ codes "rules" → get_field k routing' ≡ get_field k routing)
      × (rewrite_config addr cfg' ≡ some cfg')
rewrite_routes addr cfg routing rules e a t = (
  rewritten addr cfg routing rules,
  new_routing addr cfg routing rules,
  rewrite_some addr cfg routing rules e,
  (manual_rule_lem tag).0,
  filter_rules rules,
  again ∙ ap (λ r. some (new_routing addr cfg routing rules, cons r (filter_rules rules))) same,
  (manual_rule_lem tag).2,
  (manual_rule_lem tag).3,
  ap is_proxy_rule (sym same) ∙ own,
  filter-Keeps rules,
  (λ k n. get-set_ne (codes "routing") k _ cfg n),
  (λ k n. get-set_ne (codes "rules") k _ routing n),
  rewrite_some addr _ _ _ again
      ∙ ap some (rewritten_twice addr cfg routing rules _ (second ∙ sym first)),
)
  where
    tag : Bytes
    tag = find_outbound_tag addr cfg

    first : new_rules addr cfg rules ≡ arr (cons (manual_rule tag) (filter_rules rules))
    first = new_rules-found addr tag cfg rules a t refl

    again :
        routing_rules (rewritten addr cfg routing rules)
        ≡ some (new_routing addr cfg routing rules, cons (manual_rule tag) (filter_rules rules))
    again = routing_rules-rewritten addr cfg routing rules _ first

    same : manual_rule tag ≡ obj (manual_rule_lem tag).0
    same = (manual_rule_lem tag).1

    own : is_proxy_rule (manual_rule tag) ≡ true
    own = elim (find_prefix addr cfg) [ inl n ↦ absurd (t n) | inr p ↦ manual_rule-own tag p ]

    second :
        new_rules addr
          (rewritten addr cfg routing rules)
          (cons (manual_rule tag) (filter_rules rules))
        ≡ arr (cons (manual_rule tag) (filter_rules rules))
    second =
        new_rules-found addr tag (rewritten addr cfg routing rules) _ a t
          (find-rewritten addr addr cfg routing rules)
        ∙ ap (λ rs. arr (cons (manual_rule tag) rs))
            (filter_own (manual_rule tag) (filter_rules rules) own ∙ filter-filter rules)

-- Where the configuration has routing rules, no outbound has the address and every rule is the balancer's
-- own, the rewrite leaves `null` for the rules, and from then on no rewrite for any address takes place:
-- each returns early.
pub rewrite_stuck :
    (addr : Bytes) (cfg routing : Fields) (rules : Items)
    → routing_rules cfg ≡ some (routing, rules)
    → find_outbound_tag addr cfg ≡ []
    → AllProxy rules
    → (cfg' : Fields) × (routing' : Fields) × (rewrite_config addr cfg ≡ some cfg')
      × (get_field (codes "routing") cfg' ≡ some (obj routing'))
      × (get_field (codes "rules") routing' ≡ some null)
      × ((b : Bytes) → rewrite_config b cfg' ≡ none)
rewrite_stuck addr cfg routing rules e t n = (
  rewritten addr cfg routing rules,
  new_routing addr cfg routing rules,
  rewrite_some addr cfg routing rules e,
  get-set_self (codes "routing") _ cfg,
  get-set_self (codes "rules") _ routing ∙ ap some emptied,
  λ b. rewrite_none b _ (routing_rules-rewritten addr cfg routing rules null emptied),
)
  where
    emptied : new_rules addr cfg rules ≡ null
    emptied = new_rules-null addr cfg rules t (filter-AllProxy rules n)
