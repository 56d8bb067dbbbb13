-- ===== src/Balancer/Events/Subscriptions.antt =====
-- What a round of subscription checks leaves: no failing backend is active if another one is up.
use proxy_balacer.Base.{
  Bytes, Bool, true, false, ◌||◌, List, [], ◌∷◌, All, ◌≡◌, ◌≢◌, refl, sym, ap, ◌∙◌, arith,
  if◌then◌else◌, Bool-cases, inl, inr, ◌=ᵇ◌, text_eq_iff, lookup-insert,
}
use proxy_balacer.Health.{HealthChecker, set_status, is_up}
use proxy_balacer.Metrics.{record_failover}
use proxy_balacer.Models.{Backend, addr}
use proxy_balacer.Balancer.{
  Balancer, Env, failover, all_addrs, best_addr, check_subscriptions, check_all, check_subscription,
  is_empty,
}
use proxy_balacer.Balancer.Selection.{sync_xray-Keeps, NoneUp, failover_lem}

-- The backend has a subscription, and it cannot be fetched.
abbrev pub IsFailing : Env → Backend → Type 0
IsFailing env be = (be.sub_url ≢ []) × (env.fetch_ok be.sub_url ≡ false)

-- The address is down, and it is the active one only if no backend is up.
abbrev pub IsOff : Bytes → Balancer → Type 0
IsOff a b = (is_up b.health a ≡ false) × (b.current_addr ≡ a → NoneUp b.health b.backends)

is_up-set :
    (a c : Bytes) (up : Bool) (h : HealthChecker)
    → is_up (set_status c up h) a ≡ (if c =ᵇ a then up else is_up h a)
unfolding is_up set_status
is_up-set a c up h = ground (arith, lookup-insert c a up h.statuses)

down_stays :
    (a c : Bytes) (h : HealthChecker) → is_up h a ≡ false → is_up (set_status c false h) a ≡ false
down_stays a c h e = ground (arith, is_up-set a c false h)

NoneUp-down :
    (c : Bytes) (h : HealthChecker) (addrs : List Bytes)
    → All (λ a. is_up h a ≡ false) addrs
    → All (λ a. is_up (set_status c false h) a ≡ false) addrs
NoneUp-down c h [] n = tt
NoneUp-down c h (a ∷ addrs) n = (down_stays a c h n.0, NoneUp-down c h addrs n.1)

-- What a failover leaves alone.
pub record Stays (b b' : Balancer) : Type 0 where
  pub health_same : b'.health ≡ b.health
  pub backends_same : b'.backends ≡ b.backends
  pub mode_same : b'.manual_mode ≡ b.manual_mode

pub failover-Stays : (env : Env) (b : Balancer) → Stays b (failover env b)
unfolding failover
failover-Stays env b = ground (
  arith,
  sync_xray-Keeps env (best_addr b)
      (record b { current_addr = best_addr b; metrics = record_failover env.now b.metrics }),
)

-- An address that is up is not one that is down.
up-ne-down : (h : HealthChecker) (a c : Bytes) → is_up h c ≡ true → is_up h a ≡ false → c ≢ a
up-ne-down h a c u d e = cc (sym u ∙ ap (is_up h) e ∙ d)

-- After a failover in automatic mode every address that is down is off.
failover-IsOff :
    (env : Env) (b : Balancer) (a : Bytes)
    → b.manual_mode ≡ false
    → is_up b.health a ≡ false
    → IsOff a (failover env b)
failover-IsOff env b a auto d =
    let s = failover-Stays env b in
    (rw s.health_same d, λ e. rw (s.health_same, s.backends_same) (none_up e))
  where
    none_up : (failover env b).current_addr ≡ a → NoneUp b.health b.backends
    none_up e = elim (failover_lem env b auto) [
      | inl (n, q) ↦ n
      | inr (inl (_, n, q)) ↦
          absurd (up-ne-down b.health a _ n.1 d (ap (λ c. c.current_addr) (sym q) ∙ e))
      | inr (inr (_, n, q, _)) ↦ absurd (up-ne-down b.health a _ n.1 d (sym q ∙ e))
    ]

abbrev marked : Backend → Balancer → Balancer
marked be b = record b { health = set_status (addr be) false b.health }

check_passes :
    (env : Env) (be : Backend) (b : Balancer)
    → (is_empty be.sub_url || env.fetch_ok be.sub_url) ≡ true
    → check_subscription env be b ≡ b
unfolding check_subscription
check_passes env be b e = ground arith

check_fails :
    (env : Env) (be : Backend) (b : Balancer)
    → (is_empty be.sub_url || env.fetch_ok be.sub_url) ≡ false
    → check_subscription env be b
      ≡ (if addr be =ᵇ b.current_addr then failover env (marked be b) else marked be b)
unfolding check_subscription
check_fails env be b e = ground arith

marked-IsOff : (be : Backend) (b : Balancer) (a : Bytes) → IsOff a b → IsOff a (marked be b)
marked-IsOff be b a (d, n) = (
  down_stays a (addr be) b.health d,
  λ e. NoneUp-down (addr be) b.health (all_addrs b.backends) (n e),
)

-- One check keeps off what is off, and the mode.
check-IsOff :
    (env : Env) (be : Backend) (b : Balancer) (a : Bytes)
    → b.manual_mode ≡ false
    → IsOff a b
    → IsOff a (check_subscription env be b)
check-IsOff env be b a auto o = elim (Bool-cases (is_empty be.sub_url || env.fetch_ok be.sub_url)) [
  | inl p ↦ rw (check_passes env be b p) o
  | inr f ↦ elim (Bool-cases (addr be =ᵇ b.current_addr)) [
    | inl active ↦
        rw (check_fails env be b f, active)
          (failover-IsOff env (marked be b) a auto (marked-IsOff be b a o).0)
    | inr other ↦ rw (check_fails env be b f, other) (marked-IsOff be b a o)
  ]
]

check-mode :
    (env : Env) (be : Backend) (b : Balancer)
    → (check_subscription env be b).manual_mode ≡ b.manual_mode
unfolding check_subscription
check-mode env be b = ground (arith, failover-Stays env (marked be b))

-- The test of the loop on a failing backend.
failing_test :
    (env : Env) (be : Backend)
    → IsFailing env be
    → (is_empty be.sub_url || env.fetch_ok be.sub_url) ≡ false
unfolding is_empty
failing_test env be (n, f) = rw f (go be.sub_url n)
  where
    go : (s : Bytes) → s ≢ [] → (is_empty s || false) ≡ false
    go [] n = absurd (n refl)
    go (c ∷ s) n = refl

check-failing :
    (env : Env) (be : Backend) (b : Balancer)
    → b.manual_mode ≡ false
    → IsFailing env be
    → IsOff (addr be) (check_subscription env be b)
check-failing env be b auto f = elim (Bool-cases (addr be =ᵇ b.current_addr)) [
  | inl active ↦
      rw (check_fails env be b (failing_test env be f), active)
        (failover-IsOff env (marked be b) (addr be) auto down)
  | inr other ↦
      rw (check_fails env be b (failing_test env be f), other)
        (down, λ e. absurd (cc (other, (text_eq_iff (addr be) b.current_addr).1 (sym e))))
]
  where
    down : is_up (set_status (addr be) false b.health) (addr be) ≡ false
    down =
        ground
          (arith, is_up-set (addr be) (addr be) false b.health, text_eq_iff (addr be) (addr be))

check_all-IsOff :
    (env : Env) (bes : List Backend) (b : Balancer) (a : Bytes)
    → b.manual_mode ≡ false
    → IsOff a b
    → IsOff a (check_all env bes b)
unfolding check_all
check_all-IsOff env [] b a auto o = o
check_all-IsOff env (be ∷ bes) b a auto o =
    check_all-IsOff env bes (check_subscription env be b) a (check-mode env be b ∙ auto)
      (check-IsOff env be b a auto o)

check_all_lem :
    (env : Env) (bes : List Backend) (b : Balancer)
    → b.manual_mode ≡ false
    → All (λ be. IsFailing env be → IsOff (addr be) (check_all env bes b)) bes
unfolding check_all
check_all_lem env [] b auto = tt
check_all_lem env (be ∷ bes) b auto = (
  λ f.
      check_all-IsOff env bes (check_subscription env be b) (addr be) auto'
        (check-failing env be b auto f),
  check_all_lem env bes (check_subscription env be b) auto',
)
  where
    auto' : (check_subscription env be b).manual_mode ≡ false
    auto' = check-mode env be b ∙ auto

-- In automatic mode, after `checkSubscriptions`, with no other goroutine acting in between, each backend of
-- the list whose subscription cannot be fetched is down, and if it is still the active one then no backend of
-- the list is up.
pub check_subscriptions_lem :
    (env : Env) (b : Balancer)
    → b.manual_mode ≡ false
    → All (λ be. IsFailing env be → IsOff (addr be) (check_subscriptions env b)) b.backends
unfolding check_subscriptions
check_subscriptions_lem env b auto = check_all_lem env b.backends b auto
