-- ===== src/Balancer/Events/Manual.antt =====
-- The choice by hand holds until it is taken back.
use proxy_balacer.Base.{
  Bytes, Bool, true, false, List, [], ◌∷◌, All, Option, none, some, ◌≡◌, ◌≢◌, refl, ◌∙◌, arith,
}
use proxy_balacer.Health.{HealthChecker, probe, set_status}
use proxy_balacer.Models.{Backend, addr}
use proxy_balacer.Balancer.{
  Balancer, Env, on_change, tick, reload, set_manual, failover, check_subscriptions, check_all,
  check_subscription, select_initial, select_best, select_best_unlocked, best_addr, is_empty,
}
use proxy_balacer.Balancer.Selection.{sync_xray-Keeps}
use proxy_balacer.Balancer.Events.{
  Event, probed, status_set, changed, ticked, reloaded, manual, checked, failed, selected, notify,
  probe_addr, step, run,
}

-- The balancer is in manual mode and stays with `a`.
pub record IsPinned (a : Bytes) (b : Balancer) : Type 0 where
  pub in_manual : b.manual_mode ≡ true
  pub noted : b.manual_addr ≡ a
  pub active : b.current_addr ≡ a

abbrev pub IsNotManual : Event → Type 0
IsNotManual (manual a) = ⊥
IsNotManual _ = Unit

module _ (a : Bytes) where
  set_manual-IsPinned : (env : Env) (b : Balancer) → a ≢ [] → IsPinned a (set_manual env a b)
  set_manual-IsPinned env b n = go a n
    where
      go : (c : Bytes) → c ≢ [] → IsPinned c (set_manual env c b)
      go [] n = absurd (n refl)
      go (x ∷ s) n =
          unfold set_manual in
          ground (
            arith,
            sync_xray-Keeps env (x ∷ s)
                (record b { manual_mode = true; manual_addr = x ∷ s; current_addr = x ∷ s }),
          )

  failover-IsPinned : (env : Env) (b : Balancer) → IsPinned a b → IsPinned a (failover env b)
  unfolding failover
  failover-IsPinned env b p = ground arith

  on_change-IsPinned :
      (env : Env) (c : Bytes) (up : Bool) (b : Balancer)
      → IsPinned a b
      → IsPinned a (on_change env c up b)
  unfolding on_change
  on_change-IsPinned env c up b p = ground arith

  health-IsPinned :
      (b : Balancer) (h : HealthChecker) → IsPinned a b → IsPinned a (record b { health = h })
  health-IsPinned b h p = record { in_manual = p.in_manual; noted = p.noted; active = p.active }

  notify-IsPinned :
      (env : Env) (c : Bytes) (o : Option Bool) (b : Balancer)
      → IsPinned a b
      → IsPinned a (notify env c o b)
  unfolding notify
  notify-IsPinned env c none b p = p
  notify-IsPinned env c (some up) b p = on_change-IsPinned env c up b p

  check-IsPinned :
      (env : Env) (be : Backend) (b : Balancer)
      → IsPinned a b
      → IsPinned a (check_subscription env be b)
  unfolding check_subscription
  check-IsPinned env be b p =
      ground
        (arith, failover-IsPinned env (record b { health = set_status (addr be) false b.health }))

  check_all-IsPinned :
      (env : Env) (bes : List Backend) (b : Balancer)
      → IsPinned a b
      → IsPinned a (check_all env bes b)
  unfolding check_all
  check_all-IsPinned env [] b p = p
  check_all-IsPinned env (be ∷ bes) b p =
      check_all-IsPinned env bes (check_subscription env be b) (check-IsPinned env be b p)

  tick-IsPinned :
      (env : Env) (rows : List Backend) (b : Balancer) → IsPinned a b → IsPinned a (tick env rows b)
  unfolding tick check_subscriptions reload
  tick-IsPinned env rows b p =
      let q =
        check_all-IsPinned env rows (record b { backends = rows })
          (record { in_manual = p.in_manual; noted = p.noted; active = p.active }) in
      rw (q.in_manual) q

  select_unlocked-manual : (b : Balancer) → b.manual_mode ≡ true → select_best_unlocked b ≡ b
  unfolding select_best_unlocked
  select_unlocked-manual b m = ground arith

  select_best-IsPinned : (env : Env) (b : Balancer) → IsPinned a b → IsPinned a (select_best env b)
  unfolding select_best
  select_best-IsPinned env b p =
      let k = sync_xray-Keeps env b.current_addr b in
      rw (select_unlocked-manual b p.in_manual) (record {
        in_manual = k.mode_kept ∙ p.in_manual;
        noted = k.manual_kept ∙ p.noted;
        active = k.current_kept ∙ p.active;
      })

  step-IsPinned :
      (env : Env) (e : Event) (b : Balancer)
      → IsNotManual e
      → IsPinned a b
      → IsPinned a (step env e b)
  unfolding step probe_addr reload check_subscriptions
  step-IsPinned env (probed c outcome) b n p =
      notify-IsPinned env c (probe c outcome b.health).1 _
        (health-IsPinned b (probe c outcome b.health).0 p)
  step-IsPinned env (status_set c up) b n p = health-IsPinned b _ p
  step-IsPinned env (changed c up) b n p = on_change-IsPinned env c up b p
  step-IsPinned env (ticked rows) b n p = tick-IsPinned env rows b p
  step-IsPinned env (reloaded rows) b n p = record {
    in_manual = p.in_manual;
    noted = p.noted;
    active = p.active;
  }
  step-IsPinned env (manual c) b n p = absurd n
  step-IsPinned env checked b n p = check_all-IsPinned env b.backends b p
  step-IsPinned env failed b n p = failover-IsPinned env b p
  step-IsPinned env selected b n p = select_best-IsPinned env b p

  run-IsPinned :
      (es : List (Env × Event)) (b : Balancer)
      → All (λ s. IsNotManual s.1) es
      → IsPinned a b
      → IsPinned a (run es b)
  unfolding run
  run-IsPinned [] b n p = p
  run-IsPinned ((env, e) ∷ es) b n p =
      run-IsPinned es (step env e b) n.1 (step-IsPinned env e b n.0 p)

  -- Once a backend has been chosen by hand (a non-empty address), it stays the active one, in manual mode,
  -- whatever sequence of other events follows: probes, statuses set, calls of the callbacks, rounds of the
  -- ticker and checks of the subscriptions with any of them failing, single failovers and selections in any
  -- order, reloads.
  pub manual_holds :
      (env : Env) (b : Balancer) (es : List (Env × Event))
      → a ≢ []
      → All (λ s. IsNotManual s.1) es
      → IsPinned a (run es (set_manual env a b))
  manual_holds env b es n k = run-IsPinned es _ k (set_manual-IsPinned env b n)

-- The selection at the end of `Start` does not look at the mode: where a backend was chosen by hand before
-- it, and `BestUp` chooses another one, it makes that one active, though the mode stays manual and the
-- address noted stays the chosen one.
pub select_initial_unpins :
    (env : Env) (a : Bytes) (b : Balancer)
    → IsPinned a b
    → best_addr b ≢ []
    → best_addr b ≢ a
    → ((select_initial env b).manual_mode ≡ true)
      × ((select_initial env b).manual_addr ≡ a)
      × ((select_initial env b).current_addr ≡ best_addr b)
      × ((select_initial env b).current_addr ≢ a)
unfolding select_initial
select_initial_unpins env a b p n d =
    let k = sync_xray-Keeps env (best_addr b) (record b { current_addr = best_addr b }) in
    rw (not_empty (best_addr b) n)
      (k.mode_kept ∙ p.in_manual, k.manual_kept ∙ p.noted, k.current_kept, rw k.current_kept d)
  where
    not_empty : (s : Bytes) → s ≢ [] → is_empty s ≡ false
    not_empty [] e = absurd (e refl)
    not_empty (c ∷ s) e = refl
