-- ===== src/Health.antt =====
-- health.go: which addresses are up, how far they are, and the choice among them.
-- The state is the checker's two maps and its flag; the dial of `Check` is an argument, the outcome of
-- `net.DialTimeout` with the latency in milliseconds where it succeeds.
pub mod Best
use proxy_balacer.Base.{
  ℕ, Bytes, Bool, true, false, xor, List, [], ◌∷◌, Option, none, some, ltb, ◌==◌, if◌then◌else◌,
  lookup, insert,
}

pub record HealthChecker : Type 0 where
  pub statuses : List (Bytes × Bool)
  pub pings : List (Bytes × ℕ)
  pub timeout : ℕ
  pub observatory_ok : Bool

unfoldable pub new_health_checker : ℕ → HealthChecker
new_health_checker timeout = record {
  statuses = [];
  pings = [];
  timeout = timeout;
  observatory_ok = false;
}

unfoldable pub check : Option ℕ → Bool × ℕ
check none = (false, 0)
check (some latency) = (true, latency)

unfoldable pub set_status : Bytes → Bool → HealthChecker → HealthChecker
set_status addr up h = record h { statuses = insert addr up h.statuses }

unfoldable pub set_ping : Bytes → ℕ → HealthChecker → HealthChecker
set_ping addr ping h = record h { pings = insert addr ping h.pings }

unfoldable pub set_observatory_ok : Bool → HealthChecker → HealthChecker
set_observatory_ok up h = record h { observatory_ok = up }

abbrev or_false : Option Bool → Bool
or_false (some up) = up
or_false none = false

abbrev or_zero : Option ℕ → ℕ
or_zero (some ping) = ping
or_zero none = 0

unfoldable pub is_up : HealthChecker → Bytes → Bool
is_up h addr = or_false (lookup addr h.statuses)

unfoldable pub get_ping : HealthChecker → Bytes → ℕ
get_ping h addr = or_zero (lookup addr h.pings)

pub record Candidate : Type 0 where
  pub addr : Bytes
  pub ping : ℕ

-- A ping of 0 is not known yet, and counts as 9999.
unfoldable pub effective_ping : HealthChecker → Bytes → ℕ
effective_ping h addr = let ping = get_ping h addr in if ping == 0 then 9999 else ping

unfoldable pub candidates : HealthChecker → List Bytes → List Candidate
candidates h [] = []
candidates h (a ∷ addrs) =
    if is_up h a
    then record { addr = a; ping = effective_ping h a } ∷ candidates h addrs
    else candidates h addrs

-- `sort.Slice` by ping. Up to twelve elements it is this insertion sort; on longer slices the order
-- among equal pings may differ.
insert_sorted : Candidate → List Candidate → List Candidate
insert_sorted c [] = c ∷ []
insert_sorted c (d ∷ ds) = if ltb c.ping d.ping then c ∷ d ∷ ds else d ∷ insert_sorted c ds

sort_from : List Candidate → List Candidate → List Candidate
sort_from sorted [] = sorted
sort_from sorted (c ∷ cs) = sort_from (insert_sorted c sorted) cs

first_addr : List Candidate → Bytes
first_addr [] = []
first_addr (c ∷ cs) = c.addr

-- The empty string where no address is up.
unfoldable pub best_up : HealthChecker → List Bytes → Bytes
unfolding candidates insert_sorted sort_from first_addr
best_up h addrs = first_addr (sort_from [] (candidates h addrs))

-- One address in a round of the ticker of `Start`: the new state, and the status to report where it
-- has changed. While the observatory is active only the ping is taken.
unfoldable pub probe : Bytes → Option ℕ → HealthChecker → HealthChecker × Option Bool
probe addr outcome h =
    let (up, ping) = check outcome in
    let prev_up = is_up h addr in
    let h' = set_ping addr ping h in
    if h.observatory_ok
    then (h', none)
    else if xor prev_up up
    then (set_status addr up h', some up)
    else (h', none)

-- The first round, which `Start` makes before it returns.
unfoldable pub initial_probe : Bytes → Option ℕ → HealthChecker → HealthChecker
initial_probe addr outcome h =
    let (up, ping) = check outcome in set_ping addr ping (set_status addr up h)
