-- ===== src/Balancer/Events.antt =====
-- balancer.go and health.go: the balancer under the events that reach it while it runs.
--
-- An event is what a goroutine does: a probe of one address with its callback, a status set by the
-- observatory, the initial probe or the check of a subscription, the observatory's callback (which runs
-- in a goroutine of its own, so at any later time), a reload, a choice by hand, a failover, and a
-- selection of the best backend. A round of the ticker and the check of the subscriptions take the mutex
-- several times; each is also an event as a whole. Where others come in between, such a round is the
-- sequence of its parts: `reloaded`, a `status_set` and perhaps a `failed` for each subscription that
-- fails, and `selected`.
pub mod Manual
pub mod Subscriptions
use proxy_balacer.Base.{Bytes, Bool, List, [], ◌∷◌, Option, none, some, ℕ}
use proxy_balacer.Health.{HealthChecker, probe, set_status}
use proxy_balacer.Models.{Backend}
use proxy_balacer.Balancer.{
  Balancer, Env, on_change, tick, check_subscriptions, reload, set_manual, failover, select_best,
}

pub data Event : Type 0 where
  probed : Bytes → Option ℕ → Event
  status_set : Bytes → Bool → Event
  changed : Bytes → Bool → Event
  ticked : List Backend → Event
  reloaded : List Backend → Event
  manual : Bytes → Event
  checked failed selected : Event

-- The callback after a probe, where the status has changed.
notify : Env → Bytes → Option Bool → Balancer → Balancer
notify env a none b = b
notify env a (some up) b = on_change env a up b

unfoldable pub probe_addr : Env → Bytes → Option ℕ → Balancer → Balancer
unfolding notify
probe_addr env a outcome b =
    let (h, change) = probe a outcome b.health in notify env a change (record b { health = h })

unfoldable pub step : Env → Event → Balancer → Balancer
step env (probed a outcome) b = probe_addr env a outcome b
step env (status_set a up) b = record b { health = set_status a up b.health }
step env (changed a up) b = on_change env a up b
step env (ticked rows) b = tick env rows b
step env (reloaded rows) b = reload rows b
step env (manual a) b = set_manual env a b
step env checked b = check_subscriptions env b
step env failed b = failover env b
step env selected b = select_best env b

unfoldable pub run : List (Env × Event) → Balancer → Balancer
run [] b = b
run ((env, e) ∷ es) b = run es (step env e b)
