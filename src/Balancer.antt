-- ===== src/Balancer.antt =====
-- balancer.go: the choice of the active backend, by ping or by hand, and its effect on Xray.
--
-- The state is that of the Go struct with the health checker and the metrics in it, and with the two
-- things outside that it changes: the Xray configuration file and the restarts of the service. An
-- operation that holds the mutex once is one step; `check_subscriptions` and `tick`, which take it several
-- times, are the sequence of such steps with none of another goroutine between them, and
-- Balancer/Events.antt has their parts as events too. What an operation asks the world is in `Env`.
pub mod Selection
pub mod Sync
pub mod Events
use proxy_balacer.Base.{
  ℕ, zero, suc, ◌+◌, ◌-◌, Bytes, Bool, true, false, not, ◌&&◌, ◌||◌, List, [], ◌∷◌, map, Option,
  none, some, ltb, insert, ◌=ᵇ◌, if◌then◌else◌,
}
use proxy_balacer.Health.{HealthChecker, new_health_checker, set_status, is_up, get_ping, best_up}
use proxy_balacer.Json.{Fields}
use proxy_balacer.Metrics.{Metrics, new_metrics, record_failover, record_failback}
use proxy_balacer.Models.{Backend, addr}
use proxy_balacer.Xray.{rewrite_config}

-- What stands at `xrayConfigPath`: nothing that can be read, nothing that can be parsed, or an object.
pub data XrayFile : Type 0 where
  unreadable malformed : XrayFile
  config : Fields → XrayFile

-- The time of the call in nanoseconds since Go's zero time, whether the configuration can be written,
-- and whether `FetchSubscriptionURL` succeeds for a URL.
pub record Env : Type 0 where
  pub now : ℕ
  pub write_ok : Bool
  pub fetch_ok : Bytes → Bool

pub record Balancer : Type 0 where
  pub failback : Bool
  pub health : HealthChecker
  pub current_addr : Bytes
  pub backends : List Backend
  pub metrics : Metrics
  pub manual_mode : Bool
  pub manual_addr : Bytes
  pub last_synced_addr : Bytes
  pub last_sync_time : ℕ
  pub xray_file : XrayFile
  pub restarts : ℕ

-- `NewBalancer`, with the rows that its query of the enabled backends returns.
unfoldable pub new_balancer : Bool → ℕ → ℕ → XrayFile → List Backend → Balancer
new_balancer failback timeout now file rows = record {
  failback = failback;
  health = new_health_checker timeout;
  current_addr = [];
  backends = rows;
  metrics = new_metrics now;
  manual_mode = false;
  manual_addr = [];
  last_synced_addr = [];
  last_sync_time = 0;
  xray_file = file;
  restarts = 0;
}

-- `loadBackends` and `Reload`: the rows are those of the enabled backends, primary ones first.
unfoldable pub reload : List Backend → Balancer → Balancer
reload rows b = record b { backends = rows }

unfoldable pub all_addrs : List Backend → List Bytes
all_addrs [] = []
all_addrs (be ∷ bes) = addr be ∷ all_addrs bes

abbrev pub thirty_seconds : ℕ
thirty_seconds = 30_000_000_000

-- The configuration written back, and the service restarted. The restart is tried whether or not it
-- succeeds; it is not tried where the function has returned before.
write_config : Env → Option Fields → Balancer → Balancer
write_config env none b = b
write_config env (some cfg) b =
    if env.write_ok then record b { xray_file = config cfg; restarts = suc b.restarts } else b

sync_file : Env → Bytes → XrayFile → Balancer → Balancer
unfolding write_config
sync_file env a unreadable b = b
sync_file env a malformed b = b
sync_file env a (config cfg) b = write_config env (rewrite_config a cfg) b

-- `syncXrayLocked`. The address and the time are noted before the file is read.
unfoldable pub sync_xray : Env → Bytes → Balancer → Balancer
unfolding sync_file
sync_xray env a b =
    if (a =ᵇ b.last_synced_addr) && ltb env.now (b.last_sync_time + thirty_seconds)
    then b
    else sync_file env a b.xray_file (record b { last_synced_addr = a; last_sync_time = env.now })

is_empty : Bytes → Bool
is_empty [] = true
is_empty (c ∷ s) = false

-- There is a best backend, and it is not the current one.
pub is_switch : Bytes → Balancer → Bool
unfolding is_empty
is_switch best b = not (is_empty best) && not (best =ᵇ b.current_addr)

unfoldable pub best_addr : Balancer → Bytes
best_addr b = best_up b.health (all_addrs b.backends)

unfoldable pub select_best_unlocked : Balancer → Balancer
unfolding is_switch
select_best_unlocked b =
    if b.manual_mode
    then b
    else if is_switch (best_addr b) b
    then record b { current_addr = best_addr b }
    else b

unfoldable pub select_best : Env → Balancer → Balancer
select_best env b = let b' = select_best_unlocked b in sync_xray env b'.current_addr b'

first_or : List Bytes → Option Bytes
first_or [] = none
first_or (a ∷ addrs) = some a

-- `selectInitial`: the best backend, or the first one where none is up.
unfoldable pub select_initial : Env → Balancer → Balancer
unfolding is_empty first_or
select_initial env b =
    if not (is_empty (best_addr b))
    then sync_xray env (best_addr b) (record b { current_addr = best_addr b })
    else (elim (first_or (all_addrs b.backends)) [
      | none ↦ b
      | some a ↦ sync_xray env a (record b { current_addr = a })
    ])

unfoldable pub failover : Env → Balancer → Balancer
unfolding is_switch
failover env b =
    if b.manual_mode
    then b
    else if is_switch (best_addr b) b
    then sync_xray env (best_addr b)
        (record b { current_addr = best_addr b; metrics = record_failover env.now b.metrics })
    else b

-- `SetManual`; the empty address goes back to the automatic choice.
unfoldable pub set_manual : Env → Bytes → Balancer → Balancer
set_manual env [] b =
    let b' = select_best_unlocked (record b { manual_mode = false; manual_addr = [] }) in
    sync_xray env b'.current_addr b'
set_manual env (c ∷ s) b =
    sync_xray env (c ∷ s)
      (record b { manual_mode = true; manual_addr = c ∷ s; current_addr = c ∷ s })

-- The body of the loop of `checkSubscriptions` for one backend of the copied list.
check_subscription : Env → Backend → Balancer → Balancer
unfolding is_empty
check_subscription env be b =
    if is_empty be.sub_url || env.fetch_ok be.sub_url
    then b
    else (let b' = record b { health = set_status (addr be) false b.health } in
        if addr be =ᵇ b'.current_addr then failover env b' else b')

check_all : Env → List Backend → Balancer → Balancer
unfolding check_subscription
check_all env [] b = b
check_all env (be ∷ bes) b = check_all env bes (check_subscription env be b)

unfoldable pub check_subscriptions : Env → Balancer → Balancer
unfolding check_all
check_subscriptions env b = check_all env b.backends b

-- The two callbacks of `Start`, which are the same.
unfoldable pub on_change : Env → Bytes → Bool → Balancer → Balancer
on_change env a up b =
    if b.manual_mode then b else if not up && (a =ᵇ b.current_addr) then failover env b else b

-- One round of the ticker of `Start`.
unfoldable pub tick : Env → List Backend → Balancer → Balancer
tick env rows b =
    let b' = check_subscriptions env (reload rows b) in
    if not b'.manual_mode then select_best env b' else b'

failback_to : Env → Backend → Balancer → Bool
failback_to env be b = be.primary && not (addr be =ᵇ b.current_addr) && is_up b.health (addr be)

failback_loop : Env → List Backend → Balancer → Balancer
unfolding failback_to
failback_loop env [] b = b
failback_loop env (be ∷ bes) b =
    let rest = failback_loop env bes b in
    if failback_to env be b
    then (if not (env.fetch_ok be.sub_url)
        then rest
        else sync_xray env (addr be)
            (record b { current_addr = addr be; metrics = record_failback env.now b.metrics }))
    else rest

unfoldable pub try_failback : Env → Balancer → Balancer
unfolding failback_loop
try_failback env b = if not b.failback || b.manual_mode then b else failback_loop env b.backends b

unfoldable pub backend_for_sni : Bytes → List Backend → Option Backend
backend_for_sni sni [] = none
backend_for_sni sni (be ∷ bes) = if be.sni =ᵇ sni then some be else backend_for_sni sni bes

unfoldable pub backend_by_addr : Bytes → List Backend → Option Backend
backend_by_addr a [] = none
backend_by_addr a (be ∷ bes) = if addr be =ᵇ a then some be else backend_by_addr a bes

-- `GetAllAddrPing`, as the entries that the loop puts into its map.
unfoldable pub all_addr_ping : HealthChecker → List Backend → List (Bytes × ℕ) → List (Bytes × ℕ)
all_addr_ping h [] result = result
all_addr_ping h (be ∷ bes) result =
    all_addr_ping h bes (insert (addr be) (get_ping h (addr be)) result)
