-- ===== src/Balancer/Selection.antt =====
-- Which backend is active after each of the operations that choose one.
use proxy_balacer.Base.{
  ℕ, ◌≤◌, ◌≡◌, ◌≢◌, refl, sym, ap, ◌∙◌, arith, ◌⊎◌, inl, inr, Bytes, true, false, List, [], ◌∷◌,
  ◌++◌, All, Option, none, some, ◌=ᵇ◌, Bool-cases, text_eq_iff, text_eq_sound, subst,
}
use mathlib.Core.List.{Mem, not-mem-nil, eq-or-mem_of_mem-cons}
use mathlib.Core.Logic.Or
use proxy_balacer.Health.{HealthChecker, is_up, effective_ping}
use proxy_balacer.Health.Best.{best_up_lem}
use proxy_balacer.Json.{Fields}
use proxy_balacer.Metrics.{record_failover}
use proxy_balacer.Models.{Backend, addr}
use proxy_balacer.Xray.{rewrite_config}
use proxy_balacer.Balancer.{
  Balancer, Env, XrayFile, unreadable, malformed, config, sync_xray, sync_file, write_config,
  all_addrs, best_addr, select_best_unlocked, select_best, failover, is_switch,
}

-- All that synchronising Xray leaves as it is.
pub record Keeps (b b' : Balancer) : Type 0 where
  pub failback_kept : b'.failback ≡ b.failback
  pub health_kept : b'.health ≡ b.health
  pub current_kept : b'.current_addr ≡ b.current_addr
  pub backends_kept : b'.backends ≡ b.backends
  pub metrics_kept : b'.metrics ≡ b.metrics
  pub mode_kept : b'.manual_mode ≡ b.manual_mode
  pub manual_kept : b'.manual_addr ≡ b.manual_addr

write_config-Keeps : (env : Env) (o : Option Fields) (b : Balancer) → Keeps b (write_config env o b)
unfolding write_config
write_config-Keeps env none b = ground arith
write_config-Keeps env (some cfg) b = ground arith

sync_file-Keeps :
    (env : Env) (a : Bytes) (f : XrayFile) (b : Balancer) → Keeps b (sync_file env a f b)
unfolding sync_file
sync_file-Keeps env a unreadable b = ground arith
sync_file-Keeps env a malformed b = ground arith
sync_file-Keeps env a (config cfg) b = write_config-Keeps env (rewrite_config a cfg) b

pub sync_xray-Keeps : (env : Env) (a : Bytes) (b : Balancer) → Keeps b (sync_xray env a b)
unfolding sync_xray
sync_xray-Keeps env a b = ground (
  arith,
  sync_file-Keeps env a b.xray_file (record b { last_synced_addr = a; last_sync_time = env.now }),
)

-- No backend of the list is up.
abbrev pub NoneUp : HealthChecker → List Backend → Type 0
NoneUp h bes = All (λ a. is_up h a ≡ false) (all_addrs bes)

-- The address is that of a backend of the list, it is up, and none that is up has a smaller ping.
abbrev pub IsNearest : HealthChecker → List Backend → Bytes → Type 0
IsNearest h bes a =
    Mem a (all_addrs bes)
    × (is_up h a ≡ true)
    × All (λ c. is_up h c ≡ true → effective_ping h a ≤ effective_ping h c) (all_addrs bes)

append-ne-nil : (s : Bytes) (c : ℕ) (t : Bytes) → s ++ (c ∷ t) ≢ []
append-ne-nil [] c t e = cc
append-ne-nil (x ∷ s) c t e = cc

addr-ne-nil : (be : Backend) → addr be ≢ []
unfolding addr
addr-ne-nil be = append-ne-nil be.host _ _

pub mem-ne-nil : (bes : List Backend) (a : Bytes) → Mem a (all_addrs bes) → a ≢ []
unfolding all_addrs
mem-ne-nil [] a m = absurd (not-mem-nil m)
mem-ne-nil (be ∷ bes) a m = λ e.
    Or.elim (λ x y. absurd x) (eq-or-mem_of_mem-cons m) (λ q. addr-ne-nil be (sym q ∙ e))
      (λ m'. mem-ne-nil bes a m' e)

-- The best address is empty exactly where no backend is up, and else it is the nearest.
pub best_addr_cases :
    (b : Balancer)
    → ((best_addr b ≡ []) × NoneUp b.health b.backends)
      ⊎ ((best_addr b ≢ []) × IsNearest b.health b.backends (best_addr b))
unfolding best_addr
best_addr_cases b = elim (best_up_lem b.health (all_addrs b.backends)) [
  | inl n ↦ inl n
  | inr (m, u, l) ↦ inr (mem-ne-nil b.backends _ m, (m, u, l))
]

is_switch-nil : (b : Balancer) (a : Bytes) → a ≡ [] → is_switch a b ≡ false
unfolding is_switch
is_switch-nil b [] e = refl
is_switch-nil b (c ∷ s) e = cc

is_switch-same : (b : Balancer) (a : Bytes) → a ≡ b.current_addr → is_switch a b ≡ false
unfolding is_switch
is_switch-same b a e = ground (arith, text_eq_iff a b.current_addr)

is_switch-new : (b : Balancer) (a : Bytes) → a ≢ [] → a ≢ b.current_addr → is_switch a b ≡ true
unfolding is_switch
is_switch-new b [] n m = absurd (n refl)
is_switch-new b (c ∷ s) n m = ground (arith, text_eq_iff (c ∷ s) b.current_addr)

different : (s t : Bytes) → s ≡ t → (s =ᵇ t) ≡ false → ⊥
different s t e n = cc ((text_eq_iff s t).1 e)

-- The three situations in which a choice is made.
pub switch_cases :
    (b : Balancer)
    → (NoneUp b.health b.backends × (is_switch (best_addr b) b ≡ false))
      ⊎ ((best_addr b ≡ b.current_addr)
          × IsNearest b.health b.backends b.current_addr
          × (is_switch (best_addr b) b ≡ false))
      ⊎ (IsNearest b.health b.backends (best_addr b)
          × (best_addr b ≢ b.current_addr)
          × (is_switch (best_addr b) b ≡ true))
switch_cases b = elim (best_addr_cases b) [
  | inl (e, n) ↦ inl (n, is_switch-nil b (best_addr b) e)
  | inr (e, n) ↦ elim (Bool-cases (best_addr b =ᵇ b.current_addr)) [
    | inl same ↦
        let q = text_eq_sound _ _ same in
        inr (inl (q, subst (IsNearest b.health b.backends) q n, is_switch-same b (best_addr b) q))
    | inr other ↦
        let d : best_addr b ≢ b.current_addr =
          λ q. different (best_addr b) b.current_addr q other in
        inr (inr (n, d, is_switch-new b (best_addr b) e d))
  ]
]

-- What the automatic choice does in those situations.
abbrev switched : Balancer → Balancer
switched b = record b { current_addr = best_addr b }

select_stays :
    (b : Balancer)
    → b.manual_mode ≡ false
    → is_switch (best_addr b) b ≡ false
    → select_best_unlocked b ≡ b
unfolding select_best_unlocked
select_stays b auto e = ground arith

select_switches :
    (b : Balancer)
    → b.manual_mode ≡ false
    → is_switch (best_addr b) b ≡ true
    → select_best_unlocked b ≡ switched b
unfolding select_best_unlocked
select_switches b auto e = ground arith

failover_stays :
    (env : Env) (b : Balancer)
    → b.manual_mode ≡ false
    → is_switch (best_addr b) b ≡ false
    → failover env b ≡ b
unfolding failover
failover_stays env b auto e = ground arith

abbrev failed_over : Env → Balancer → Balancer
failed_over env b = record b {
  current_addr = best_addr b;
  metrics = record_failover env.now b.metrics;
}

failover_switches :
    (env : Env) (b : Balancer)
    → b.manual_mode ≡ false
    → is_switch (best_addr b) b ≡ true
    → failover env b ≡ sync_xray env (best_addr b) (failed_over env b)
unfolding failover
failover_switches env b auto e = ground arith

select_best-current :
    (env : Env) (b : Balancer)
    → (select_best env b).current_addr ≡ (select_best_unlocked b).current_addr
unfolding select_best
select_best-current env b = (sync_xray-Keeps env _ (select_best_unlocked b)).current_kept

-- In automatic mode, after `selectBest` the active address is that of a backend that is up with the
-- least ping, or, where none is up, the one that it was.
pub select_best_lem :
    (env : Env) (b : Balancer)
    → b.manual_mode ≡ false
    → (NoneUp b.health b.backends × ((select_best env b).current_addr ≡ b.current_addr))
      ⊎ IsNearest b.health b.backends (select_best env b).current_addr
select_best_lem env b auto = elim (switch_cases b) [
  | inl (n, e) ↦ inl (n, stays e)
  | inr (inl (q, n, e)) ↦ inr (subst (IsNearest b.health b.backends) (sym (stays e)) n)
  | inr (inr (n, d, e)) ↦ inr (
      subst (IsNearest b.health b.backends)
        (sym (select_best-current env b ∙ ap (λ c. c.current_addr) (select_switches b auto e))) n)
]
  where
    stays : is_switch (best_addr b) b ≡ false → (select_best env b).current_addr ≡ b.current_addr
    stays e = select_best-current env b ∙ ap (λ c. c.current_addr) (select_stays b auto e)

-- In automatic mode `failover` does nothing at all where no backend is up, or where the active one is the
-- one that `BestUp` chooses, which then is up with the least ping; in the one other case it makes the
-- choice of `BestUp`, which is up with the least ping, active in place of another one, and counts one
-- failover.
pub failover_lem :
    (env : Env) (b : Balancer)
    → b.manual_mode ≡ false
    → (NoneUp b.health b.backends × (failover env b ≡ b))
      ⊎ ((best_addr b ≡ b.current_addr)
          × IsNearest b.health b.backends b.current_addr
          × (failover env b ≡ b))
      ⊎ ((best_addr b ≢ b.current_addr)
          × IsNearest b.health b.backends (best_addr b)
          × ((failover env b).current_addr ≡ best_addr b)
          × ((failover env b).metrics ≡ record_failover env.now b.metrics))
failover_lem env b auto = elim (switch_cases b) [
  | inl (n, e) ↦ inl (n, failover_stays env b auto e)
  | inr (inl (q, n, e)) ↦ inr (inl (q, n, failover_stays env b auto e))
  | inr (inr (n, d, e)) ↦
      let k = sync_xray-Keeps env (best_addr b) (failed_over env b) in
      let q = failover_switches env b auto e in
      inr (inr (d, n, rw q k.current_kept, rw q k.metrics_kept))
]
