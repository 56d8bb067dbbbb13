-- ===== src/Tests/Health.antt =====
-- The choice among concrete addresses.
use proxy_balacer.Base.{
  length, ◌≤◌, arith, Bytes, codes, [], ◌∷◌, List, none, some, false, ◌≡◌, refl, lookup, insert,
  ◌=ᵇ◌, xor,
}
use proxy_balacer.Health.{
  HealthChecker, new_health_checker, set_status, set_ping, is_up, get_ping, effective_ping, best_up,
  candidates, initial_probe, probe, check,
}
use proxy_balacer.Health.Best.{best_up-nearest, nearest, addr_or_empty}

abbrev near : Bytes
near = codes "near:1"

abbrev far : Bytes
far = codes "far:2"

abbrev unknown : Bytes
unknown = codes "new:3"

-- `far` at 80 ms, `near` at 20 ms, `unknown` up with no ping yet.
probed : HealthChecker
unfolding initial_probe check set_status set_ping new_health_checker insert ◌=ᵇ◌
probed =
    initial_probe unknown (some 0)
      (initial_probe near (some 20) (initial_probe far (some 80) (new_health_checker 3)))

abbrev three : List Bytes
three = unknown ∷ far ∷ near ∷ []

best_three : best_up probed three ≡ near
unfolding probed best_up is_up get_ping effective_ping lookup
best_three = refl

lost : (probe near none probed).1 ≡ some false
unfolding probed probe is_up lookup xor
lost = refl

few : length (candidates probed three) ≤ 12
unfolding probed candidates is_up get_ping effective_ping lookup
few = omega arith

best_up-nearest_example : best_up probed three ≡ addr_or_empty (nearest probed none three)
best_up-nearest_example = best_up-nearest probed three few
