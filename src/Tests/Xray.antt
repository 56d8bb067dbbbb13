-- ===== src/Tests/Xray.antt =====
-- Rewrites of concrete configurations.
use proxy_balacer.Base.{
  Bytes, codes, [], none, some, true, false, ◌≡◌, ◌≢◌, refl, has_prefix, ◌=ᵇ◌, decimal,
}
use proxy_balacer.Json.{
  Json, null, num, str, arr, obj, Items, nil, cons, Fields, end, field, get_field, set_field,
}
use proxy_balacer.Xray.{
  filter_rules, is_proxy_rule, routing_rules, rewrite_config, find_outbound_tag, candidate_addr,
  manual_rule, new_rules,
}
use proxy_balacer.Xray.Routing.{rewrite_routes, rewrite_stuck}
use proxy_balacer.Xray.Rules.{Keeps, inbounds}

abbrev outbound : Json
outbound = obj (
    field (codes "tag") (str (codes "proxy-1")) (
      field (codes "settings")
        (obj (
          field (codes "vnext")
            (arr (
              cons
                (obj (
                  field (codes "address") (str (codes "a.io"))
                    (field (codes "port") (num false 443 []) end)))
                nil))
            end))
        end))

abbrev api_rule : Json
api_rule = obj (field (codes "outboundTag") (str (codes "api")) end)

abbrev balancer_rule : Json
balancer_rule = obj (field (codes "balancerTag") (str (codes "auto")) end)

abbrev with_rules : Items → Fields
with_rules rules =
    field (codes "outbounds") (arr (cons outbound nil))
      (field (codes "routing") (obj (field (codes "rules") (arr rules) end)) end)

abbrev here : Bytes
here = codes "a.io:443"

abbrev elsewhere : Bytes
elsewhere = codes "b.io:443"

tag_here : find_outbound_tag here (with_rules nil) ≡ codes "proxy-1"
unfolding find_outbound_tag get_field ◌=ᵇ◌ has_prefix candidate_addr decimal
tag_here = refl

tag_elsewhere : find_outbound_tag elsewhere (with_rules (cons balancer_rule nil)) ≡ []
unfolding find_outbound_tag get_field ◌=ᵇ◌ has_prefix candidate_addr decimal
tag_elsewhere = refl

rules_of :
    (rules : Items)
    → routing_rules (with_rules rules) ≡ some (field (codes "rules") (arr rules) end, rules)
unfolding routing_rules get_field ◌=ᵇ◌
rules_of rules = refl

forced :
    rewrite_config here (with_rules (cons balancer_rule (cons api_rule nil)))
    ≡ some (with_rules (cons (manual_rule (codes "proxy-1")) (cons api_rule nil)))
unfolding rewrite_config routing_rules find_outbound_tag get_field set_field ◌=ᵇ◌ has_prefix
    candidate_addr decimal new_rules filter_rules is_proxy_rule
forced = refl

abbrev mixed : Items
mixed = cons balancer_rule (cons api_rule nil)

found : find_outbound_tag here (with_rules mixed) ≢ []
unfolding find_outbound_tag get_field ◌=ᵇ◌ has_prefix candidate_addr decimal
found e = cc

rewrite_routes_example :
    (cfg' : Fields) × (routing' : Fields) × (rewrite_config here (with_rules mixed) ≡ some cfg')
    × (rule : Fields) × (kept : Items) × (routing_rules cfg'
        ≡ some (routing', cons (obj rule) kept))
    × (get_field (codes "outboundTag") rule
        ≡ some (str (find_outbound_tag here (with_rules mixed))))
    × (get_field (codes "inboundTag") rule ≡ some (arr inbounds))
    × (is_proxy_rule (obj rule) ≡ true)
    × Keeps mixed kept
    × ((k : Bytes) → k ≢ codes "routing" → get_field k cfg' ≡ get_field k (with_rules mixed))
    × ((k : Bytes)
        → k ≢ codes "rules"
        → get_field k routing' ≡ get_field k (field (codes "rules") (arr mixed) end))
    × (rewrite_config here cfg' ≡ some cfg')
rewrite_routes_example =
    rewrite_routes here (with_rules mixed) (field (codes "rules") (arr mixed) end) mixed
      (rules_of mixed) (λ e. cc) found

rewrite_stuck_example :
    (cfg' : Fields) × (routing' : Fields) × (rewrite_config elsewhere
        (with_rules (cons balancer_rule nil))
      ≡ some cfg')
    × (get_field (codes "routing") cfg' ≡ some (obj routing'))
    × (get_field (codes "rules") routing' ≡ some null)
    × ((b : Bytes) → rewrite_config b cfg' ≡ none)
unfolding is_proxy_rule get_field ◌=ᵇ◌ has_prefix
rewrite_stuck_example =
    rewrite_stuck elsewhere (with_rules (cons balancer_rule nil)) _ _ (rules_of _) tag_elsewhere
      (refl, tt)
