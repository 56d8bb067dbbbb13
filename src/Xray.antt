-- ===== src/Xray.antt =====
-- balancer.go, lines 315-429: the routing rules of the Xray configuration.
pub mod Routing
pub mod Rules
use proxy_balacer.Base.{
  ℕ, zero, suc, Bytes, Bool, true, false, ◌||◌, ◌&&◌, ltb, codes, [], ◌++◌, ◌∷◌, Option, none, some,
  ◌=ᵇ◌, has_prefix, decimal, atoi, ℤ, pos, with_sign, print_int, if◌then◌else◌,
}
use proxy_balacer.Json.{
  Json, null, bool, num, str, arr, obj, Items, nil, cons, Fields, end, field, get_field, set_field,
  as_string, as_object, as_array,
}

abbrev pub proxy_prefix : Bytes
proxy_prefix = codes "proxy-"

abbrev has_field : Option Json → Bool
has_field (some v) = true
has_field none = false

-- A rule of the balancer's own: one for a `proxy-` outbound, or for a balancer.
unfoldable pub is_proxy_rule : Json → Bool
is_proxy_rule (obj rule) =
    has_prefix (as_string (get_field (codes "outboundTag") rule)) proxy_prefix
    || has_field (get_field (codes "balancerTag") rule)
is_proxy_rule _ = false

-- The loop over the rules.
unfoldable pub filter_rules : Items → Items
filter_rules nil = nil
filter_rules (cons r rules) =
    if is_proxy_rule r then filter_rules rules else cons r (filter_rules rules)

-- The port of an outbound: `int` of a float cuts the fraction off; anything else is 0.
unfoldable pub port_value : Option Json → ℤ
port_value (some (num negative whole fraction)) = with_sign negative whole
port_value (some (str s)) = atoi s
port_value (some _) = pos 0
port_value none = pos 0

-- `fmt.Sprintf("%s:%d", vnAddr, vnPort)`.
unfoldable pub candidate_addr : Fields → Bytes
unfolding port_value print_int
candidate_addr vn =
    as_string (get_field (codes "address") vn)
    ++ (b':' ∷ print_int (port_value (get_field (codes "port") vn)))

vnext_has : Bytes → Items → Bool
vnext_has addr nil = false
vnext_has addr (cons v vs) =
    (elim (as_object (some v)) [ none ↦ false | some vn ↦ candidate_addr vn =ᵇ addr ])
    || vnext_has addr vs

-- The servers of an outbound, where it has any.
unfoldable pub vnext_of : Fields → Option Items
vnext_of ob = elim (as_object (get_field (codes "settings") ob)) [
  | none ↦ none
  | some settings ↦ as_array (get_field (codes "vnext") settings)
]

-- An outbound is a hit if it is one of the balancer's and one of its servers has the address.
outbound_has : Bytes → Fields → Bool
unfolding vnext_has vnext_of
outbound_has addr ob =
    if has_prefix (as_string (get_field (codes "tag") ob)) proxy_prefix
    then (elim (vnext_of ob) [ none ↦ false | some vnext ↦ vnext_has addr vnext ])
    else false

search_outbounds : Bytes → Items → Bytes
search_outbounds addr nil = []
search_outbounds addr (cons o os) = elim (as_object (some o)) [
  | none ↦ search_outbounds addr os
  | some ob ↦
      if outbound_has addr ob
      then as_string (get_field (codes "tag") ob)
      else search_outbounds addr os
]

-- The empty string where no outbound has the address.
unfoldable pub find_outbound_tag : Bytes → Fields → Bytes
unfolding outbound_has search_outbounds
find_outbound_tag addr cfg = elim (as_array (get_field (codes "outbounds") cfg)) [
  | none ↦ []
  | some outbounds ↦ search_outbounds addr outbounds
]

-- The rule that sends all inbound traffic to one outbound.
unfoldable pub manual_rule : Bytes → Json
manual_rule tag = obj (
    field (codes "inboundTag")
      (arr (cons (str (codes "vless-in")) (cons (str (codes "vless-ws-in")) nil)))
      (field (codes "outboundTag") (str tag) end))

-- The Go slice of the kept rules is nil if there are none, and a nil slice is encoded as `null`.
unfoldable pub rules_value : Items → Json
rules_value nil = null
rules_value (cons r rules) = arr (cons r rules)

is_empty : Bytes → Bool
is_empty [] = true
is_empty (c ∷ s) = false

-- The new value of `routing.rules`.
unfoldable pub new_rules : Bytes → Fields → Items → Json
unfolding is_empty
new_rules addr cfg rules =
    let kept = filter_rules rules in
    let tag = find_outbound_tag addr cfg in
    if is_empty addr || is_empty tag then rules_value kept else arr (cons (manual_rule tag) kept)

-- The rules of a configuration, with the object that holds them.
unfoldable pub routing_rules : Fields → Option (Fields × Items)
routing_rules cfg = elim (as_object (get_field (codes "routing") cfg)) [
  | none ↦ none
  | some routing ↦ elim (as_array (get_field (codes "rules") routing)) [
    | none ↦ none
    | some rules ↦ some (routing, rules)
  ]
]

-- The configuration with its rules set for an address; `none` where the function returns early.
unfoldable pub rewrite_config : Bytes → Fields → Option Fields
rewrite_config addr cfg = elim (routing_rules cfg) [
  | none ↦ none
  | some (routing, rules) ↦ some (
      set_field (codes "routing")
        (obj (set_field (codes "rules") (new_rules addr cfg rules) routing)) cfg)
]
