-- ===== src/Xray/Rules.antt =====
-- The rules of the balancer's own, and those that are left.
use proxy_balacer.Base.{
  Bytes, true, false, codes, some, ◌=ᵇ◌, has_prefix, ◌≡◌, refl, inl, inr, arith, Bool-cases,
}
use proxy_balacer.Json.{Json, str, arr, obj, Items, nil, cons, Fields, get_field}
use proxy_balacer.Xray.{proxy_prefix, is_proxy_rule, filter_rules, manual_rule}

-- The second list has the rules of the first that are not the balancer's own, in their order.
pub data Keeps : Items → Items → Type 0 where
  nothing : Keeps nil nil
  leave_out :
      (r : Json) (rules kept : Items)
      → is_proxy_rule r ≡ true
      → Keeps rules kept
      → Keeps (cons r rules) kept
  keep :
      (r : Json) (rules kept : Items)
      → is_proxy_rule r ≡ false
      → Keeps rules kept
      → Keeps (cons r rules) (cons r kept)

pub filter-Keeps : (rules : Items) → Keeps rules (filter_rules rules)
unfolding filter_rules
filter-Keeps nil = nothing
filter-Keeps (cons r rules) = elim (Bool-cases (is_proxy_rule r)) [
  | inl own ↦ rw own (leave_out r rules (filter_rules rules) own (filter-Keeps rules))
  | inr other ↦ rw other (keep r rules (filter_rules rules) other (filter-Keeps rules))
]

-- All rules are the balancer's own.
abbrev pub AllProxy : Items → Type 0
AllProxy nil = Unit
AllProxy (cons r rules) = (is_proxy_rule r ≡ true) × AllProxy rules

pub filter-AllProxy : (rules : Items) → AllProxy rules → filter_rules rules ≡ nil
unfolding filter_rules
filter-AllProxy nil n = refl
filter-AllProxy (cons r rules) n = ground (arith, filter-AllProxy rules n.1)

-- None of the rules is the balancer's own.
abbrev NoProxy : Items → Type 0
NoProxy nil = Unit
NoProxy (cons r rules) = (is_proxy_rule r ≡ false) × NoProxy rules

filter-NoProxy : (rules : Items) → NoProxy (filter_rules rules)
unfolding filter_rules
filter-NoProxy nil = tt
filter-NoProxy (cons r rules) = elim (Bool-cases (is_proxy_rule r)) [
  | inl own ↦ rw own (filter-NoProxy rules)
  | inr other ↦ rw other (other, filter-NoProxy rules)
]

filter_kept : (rules : Items) → NoProxy rules → filter_rules rules ≡ rules
unfolding filter_rules
filter_kept nil n = refl
filter_kept (cons r rules) n = ground (arith, filter_kept rules n.1)

pub filter-filter : (rules : Items) → filter_rules (filter_rules rules) ≡ filter_rules rules
filter-filter rules = filter_kept (filter_rules rules) (filter-NoProxy rules)

pub filter_own :
    (r : Json) (rules : Items)
    → is_proxy_rule r ≡ true
    → filter_rules (cons r rules) ≡ filter_rules rules
unfolding filter_rules
filter_own r rules own = rw own

-- The inbounds whose traffic the balancer's rule takes.
abbrev pub inbounds : Items
inbounds = cons (str (codes "vless-in")) (cons (str (codes "vless-ws-in")) nil)

pub manual_rule-own :
    (tag : Bytes) → has_prefix tag proxy_prefix ≡ true → is_proxy_rule (manual_rule tag) ≡ true
unfolding is_proxy_rule manual_rule get_field ◌=ᵇ◌
manual_rule-own tag h = rw h

-- The rule for an outbound names it, and the two inbounds whose traffic goes there.
pub manual_rule_lem :
    (tag : Bytes)
    → (rule : Fields) × (manual_rule tag ≡ obj rule)
      × (get_field (codes "outboundTag") rule ≡ some (str tag))
      × (get_field (codes "inboundTag") rule ≡ some (arr inbounds))
unfolding manual_rule get_field ◌=ᵇ◌
manual_rule_lem tag = (_, refl, refl, refl)
