-- ===== src/Balancer/Sync.antt =====
-- When Xray is synchronised, and when a failover leads away from a backend that went down.
use proxy_balacer.Base.{
  ℕ, ◌+◌, ◌<◌, ◌≡◌, ◌≢◌, ap, arith, ◌⊎◌, inl, inr, Bytes, true, false, List, [], ◌∷◌, All, Option,
  none, some, text_eq_iff,
}
use mathlib.Core.List.{Mem, not-mem-nil, eq-or-mem_of_mem-cons}
use mathlib.Core.Logic.Or
use mathlib.Core.Path.{fun_ext}
use proxy_balacer.Health.{HealthChecker, is_up}
use proxy_balacer.Json.{Fields}
use proxy_balacer.Metrics.{record_failover}
use proxy_balacer.Balancer.{
  Balancer, Env, XrayFile, unreadable, malformed, config, sync_xray, sync_file, write_config,
  all_addrs, failover, on_change, thirty_seconds,
}
use proxy_balacer.Balancer.Selection.{IsNearest, failover_lem}

abbrev Synced : Bytes → ℕ → Balancer → Type 0
Synced a now b = (b.last_synced_addr ≡ a) × (b.last_sync_time ≡ now)

write_config-Synced :
    (env : Env) (a : Bytes) (now : ℕ) (o : Option Fields) (b : Balancer)
    → Synced a now b
    → Synced a now (write_config env o b)
unfolding write_config
write_config-Synced env a now none b s = s
write_config-Synced env a now (some cfg) b s = ground arith

sync_file-Synced :
    (env : Env) (a c : Bytes) (now : ℕ) (f : XrayFile) (b : Balancer)
    → Synced a now b
    → Synced a now (sync_file env c f b)
unfolding sync_file
sync_file-Synced env a c now unreadable b s = s
sync_file-Synced env a c now malformed b s = s
sync_file-Synced env a c now (config cfg) b s = write_config-Synced env a now _ b s

throttled :
    (env : Env) (a : Bytes) (now : ℕ) (b : Balancer)
    → Synced a now b
    → env.now < now + thirty_seconds
    → sync_xray env a b ≡ b
unfolding sync_xray
throttled env a now b s h = ground (arith, text_eq_iff a b.last_synced_addr)

-- A synchronisation that is let through bars the next one for the same address for thirty seconds,
-- whether or not it got anywhere: a configuration that could not be read, parsed or written is not
-- tried again before.
pub sync_twice :
    (env later : Env) (a : Bytes) (b : Balancer)
    → (a ≢ b.last_synced_addr) ⊎ (b.last_sync_time + thirty_seconds < env.now)
    → later.now < env.now + thirty_seconds
    → sync_xray later a (sync_xray env a b) ≡ sync_xray env a b
sync_twice env later a b due h = throttled later a env.now (sync_xray env a b) noted h
  where
    noted : Synced a env.now (sync_xray env a b)
    noted =
        unfold sync_xray in
        ground (
          arith,
          text_eq_iff a b.last_synced_addr,
          sync_file-Synced env a a env.now b.xray_file
              (record b { last_synced_addr = a; last_sync_time = env.now }),
        )

mem-All-down :
    (h : HealthChecker) (addrs : List Bytes) (c : Bytes)
    → Mem c addrs
    → All (λ a. is_up h a ≡ false) addrs
    → is_up h c ≢ true
mem-All-down h [] c m n = absurd (not-mem-nil m)
mem-All-down h (a ∷ addrs) c m n =
    Or.elim (λ x y. fun_ext (λ z. absurd (x z))) (eq-or-mem_of_mem-cons m)
      (λ e u. cc (n.0, ap (is_up h) e, u)) (λ m' u. mem-All-down h addrs c m' n.1 u)

-- In automatic mode, when the callback reports the active backend as down, the health checker has it as
-- down too at that moment, and some listed backend is up, then a backend that is up with the least ping
-- becomes active in its place, and one failover is counted.
pub on_change_moves :
    (env : Env) (b : Balancer) (c : Bytes)
    → b.manual_mode ≡ false
    → is_up b.health b.current_addr ≡ false
    → Mem c (all_addrs b.backends)
    → is_up b.health c ≡ true
    → IsNearest b.health b.backends (on_change env b.current_addr false b).current_addr
      × ((on_change env b.current_addr false b).current_addr ≢ b.current_addr)
      × ((on_change env b.current_addr false b).metrics ≡ record_failover env.now b.metrics)
on_change_moves env b c auto down m u =
    rw (calls_failover env b auto) (elim (failover_lem env b auto) [
      | inl (n, e) ↦ absurd (mem-All-down b.health (all_addrs b.backends) c m n u)
      | inr (inl (q, n, e)) ↦ absurd (cc (n.1, down))
      | inr (inr (d, n, e, k)) ↦ (rw e n, rw e d, k)
    ])
  where
    calls_failover :
        (env : Env) (b : Balancer)
        → b.manual_mode ≡ false
        → on_change env b.current_addr false b ≡ failover env b
    calls_failover env b auto =
        unfold on_change in ground (arith, text_eq_iff b.current_addr b.current_addr)
