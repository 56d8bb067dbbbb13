-- ===== src/Tests/Balancer.antt =====
-- The balancer on concrete states.
use proxy_balacer.Base.{
  ℕ, Bytes, codes, [], ◌∷◌, List, none, true, false, All, ◌≡◌, ◌≢◌, refl, arith, ◌⊎◌, inl, lookup,
  ◌=ᵇ◌, decimal,
}
use mathlib.Core.List.{Mem, mem-cons_self, mem-cons_of_mem}
use proxy_balacer.Health.{new_health_checker, is_up, get_ping, effective_ping, best_up}
use proxy_balacer.Metrics.{record_failover}
use proxy_balacer.Models.{Backend, addr}
use proxy_balacer.Balancer.{
  Balancer, Env, unreadable, new_balancer, sync_xray, select_best, select_initial, failover,
  set_manual, check_subscriptions, on_change, all_addrs, best_addr,
}
use proxy_balacer.Balancer.Selection.{NoneUp, IsNearest, select_best_lem, failover_lem}
use proxy_balacer.Balancer.Sync.{sync_twice, on_change_moves}
use proxy_balacer.Balancer.Events.{
  Event, probed, status_set, changed, ticked, reloaded, failed, selected, run,
}
use proxy_balacer.Balancer.Events.Manual.{IsPinned, manual_holds, select_initial_unpins}
use proxy_balacer.Balancer.Events.Subscriptions.{IsFailing, IsOff, check_subscriptions_lem}

abbrev backend : ℕ → Bytes → Bytes → Backend
backend id host url = record {
  id = id;
  name = host;
  sub_url = url;
  host = host;
  port = 443;
  sni = host;
  primary = false;
  enabled = true;
  last_fetch = 0;
  uuid = [];
  reality_pub_key = [];
  reality_short_id = [];
  reality_spider_x = [];
  fingerprint = [];
  flow = [];
}

abbrev backend_a : Backend
backend_a = backend 1 (codes "a") (codes "u")

abbrev backend_b : Backend
backend_b = backend 2 (codes "b") (codes "v")

abbrev addr_a : Bytes
addr_a = codes "a:443"

abbrev addr_b : Bytes
addr_b = codes "b:443"

addr_of_a : addr backend_a ≡ addr_a
unfolding addr decimal
addr_of_a = refl

-- Only the subscription `v` can be fetched.
abbrev at_noon : Env
at_noon = record { now = 100_000_000_000; write_ok = true; fetch_ok = λ u. u =ᵇ codes "v" }

abbrev later : Env
later = record { now = 110_000_000_000; write_ok = true; fetch_ok = λ u. false }

-- `a` is active and down, `b` is up.
two : Balancer
unfolding new_balancer new_health_checker
two = record (new_balancer true 3 0 unreadable (backend_a ∷ backend_b ∷ [])) {
  current_addr = addr_a;
  health = record {
    statuses = (addr_a, false) ∷ (addr_b, true) ∷ [];
    pings = (addr_b, 30) ∷ [];
    timeout = 3;
    observatory_ok = false;
  };
}

fails_over : (failover at_noon two).current_addr ≡ addr_b
unfolding failover two best_addr best_up is_up get_ping effective_ping lookup all_addrs addr decimal
    sync_xray ◌=ᵇ◌
fails_over = refl

two_auto : two.manual_mode ≡ false
unfolding two
two_auto = refl

select_best_lem_example :
    (NoneUp two.health two.backends × ((select_best at_noon two).current_addr ≡ two.current_addr))
    ⊎ IsNearest two.health two.backends (select_best at_noon two).current_addr
select_best_lem_example = select_best_lem at_noon two two_auto

failover_lem_example :
    (NoneUp two.health two.backends × (failover at_noon two ≡ two))
    ⊎ ((best_addr two ≡ two.current_addr)
        × IsNearest two.health two.backends two.current_addr
        × (failover at_noon two ≡ two))
    ⊎ ((best_addr two ≢ two.current_addr)
        × IsNearest two.health two.backends (best_addr two)
        × ((failover at_noon two).current_addr ≡ best_addr two)
        × ((failover at_noon two).metrics ≡ record_failover at_noon.now two.metrics))
failover_lem_example = failover_lem at_noon two two_auto

sync_twice_example :
    sync_xray later addr_b (sync_xray at_noon addr_b two) ≡ sync_xray at_noon addr_b two
unfolding two
sync_twice_example = sync_twice at_noon later addr_b two (inl (λ e. cc)) (omega arith)

a_down : is_up two.health two.current_addr ≡ false
unfolding two is_up lookup ◌=ᵇ◌
a_down = refl

b_listed : Mem addr_b (all_addrs two.backends)
unfolding two all_addrs addr decimal
b_listed = mem-cons_of_mem addr_a mem-cons_self

b_up : is_up two.health addr_b ≡ true
unfolding two is_up lookup ◌=ᵇ◌
b_up = refl

on_change_moves_example :
    IsNearest two.health two.backends (on_change at_noon two.current_addr false two).current_addr
    × ((on_change at_noon two.current_addr false two).current_addr ≢ two.current_addr)
    × ((on_change at_noon two.current_addr false two).metrics
        ≡ record_failover at_noon.now two.metrics)
on_change_moves_example = on_change_moves at_noon two addr_b two_auto a_down b_listed b_up

abbrev events : List (Env × Event)
events =
    (later, probed addr_a none)
    ∷ (later, status_set addr_a false)
    ∷ (later, changed addr_a false)
    ∷ (later, ticked (backend_b ∷ []))
    ∷ (later, reloaded [])
    ∷ (later, failed)
    ∷ (later, selected)
    ∷ []

manual_holds_example : IsPinned addr_a (run events (set_manual at_noon addr_a two))
manual_holds_example = manual_holds addr_a at_noon two events (λ e. cc) (omega arith)

pinned : Balancer
unfolding two
pinned = record two { manual_mode = true; manual_addr = addr_a }

pinned-IsPinned : IsPinned addr_a pinned
unfolding pinned two
pinned-IsPinned = record { in_manual = refl; noted = refl; active = refl }

best_pinned : best_addr pinned ≡ addr_b
unfolding pinned two best_addr best_up is_up get_ping effective_ping lookup all_addrs addr decimal
    ◌=ᵇ◌
best_pinned = refl

b_ne_a : addr_b ≢ addr_a
b_ne_a e = ground arith

select_initial_unpins_example :
    ((select_initial at_noon pinned).manual_mode ≡ true)
    × ((select_initial at_noon pinned).manual_addr ≡ addr_a)
    × ((select_initial at_noon pinned).current_addr ≡ best_addr pinned)
    × ((select_initial at_noon pinned).current_addr ≢ addr_a)
select_initial_unpins_example =
    select_initial_unpins at_noon addr_a pinned pinned-IsPinned (rw best_pinned (λ e. cc))
      (rw best_pinned b_ne_a)

check_subscriptions_lem_example :
    All
      (λ be. IsFailing at_noon be → IsOff (addr be) (check_subscriptions at_noon two))
      two.backends
check_subscriptions_lem_example = check_subscriptions_lem at_noon two two_auto
