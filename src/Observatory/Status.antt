-- ===== src/Observatory/Status.antt =====
-- The status of an address after lines of the log.
use proxy_balacer.Base.{
  ◌≡◌, refl, sym, ◌∙◌, ap, Bytes, Bool, true, false, List, [], ◌∷◌, ◌++◌, Option, none, some, xor,
  lookup-insert, if◌then◌else◌, ◌=ᵇ◌, arith, Bool-cases, inl, inr, not, text_eq_sound,
}
use proxy_balacer.Health.{HealthChecker, set_status, is_up}
use proxy_balacer.Observatory.{TagMap, observe, scan_line, scan_log, read_line, read_new_lines}

-- The last line that says something of the address decides.
unfoldable pub says : Bytes → Option (Bytes × Bool) → Bool → Bool
says a none before = before
says a (some (b, alive)) before = if b =ᵇ a then alive else before

unfoldable pub last_said : TagMap → List Bytes → Bytes → Bool → Bool
unfolding says
last_said m [] a before = before
last_said m (line ∷ lines) a before = last_said m lines a (says a (observe m line) before)

is_up-set_status :
    (a b : Bytes) (alive : Bool) (h : HealthChecker)
    → is_up (set_status b alive h) a ≡ (if b =ᵇ a then alive else is_up h a)
unfolding is_up set_status
is_up-set_status a b alive h = ground (arith, lookup-insert b a alive h.statuses)

scanned :
    (a : Bytes) (o : Option (Bytes × Bool)) (h : HealthChecker)
    → is_up (scan_line o h) a ≡ says a o (is_up h a)
unfolding scan_line says
scanned a none h = refl
scanned a (some (b, alive)) h = is_up-set_status a b alive h

xor-false : (x y : Bool) → xor x y ≡ false → x ≡ y
unfolding xor
xor-false true true e = refl
xor-false true false e = absurd cc
xor-false false true e = absurd cc
xor-false false false e = refl

xor-true : (x y : Bool) → xor x y ≡ true → x ≡ not y
unfolding xor
xor-true true true e = absurd cc
xor-true true false e = refl
xor-true false true e = refl
xor-true false false e = absurd cc

unchanged :
    (a b : Bytes) (alive : Bool) (h : HealthChecker)
    → xor (is_up h b) alive ≡ false
    → is_up h a ≡ (if b =ᵇ a then alive else is_up h a)
unchanged a b alive h e = elim (Bool-cases (b =ᵇ a)) [
  | inl k ↦ rw k (ap (is_up h) (sym (text_eq_sound b a k)) ∙ xor-false (is_up h b) alive e)
  | inr k ↦ rw k refl
]

read_says :
    (a : Bytes) (o : Option (Bytes × Bool)) (h : HealthChecker)
    → is_up (read_line o h).0 a ≡ says a o (is_up h a)
unfolding read_line says
read_says a none h = refl
read_says a (some (b, alive)) h = elim (Bool-cases (xor (is_up h b) alive)) [
  | inl e ↦ rw e (is_up-set_status a b alive h)
  | inr e ↦ rw e (unchanged a b alive h e)
]

-- After the scan of a log the status of an address is what the last line says that speaks of it, and what
-- it was where no line does.
pub is_up-scan_log :
    (m : TagMap) (lines : List Bytes) (h : HealthChecker) (a : Bytes)
    → is_up (scan_log m lines h) a ≡ last_said m lines a (is_up h a)
unfolding scan_log last_said
is_up-scan_log m [] h a = refl
is_up-scan_log m (line ∷ lines) h a =
    is_up-scan_log m lines (scan_line (observe m line) h) a
    ∙ ap (last_said m lines a) (scanned a (observe m line) h)

-- The same for the tail of the log.
pub tail_says :
    (m : TagMap) (lines : List Bytes) (h : HealthChecker) (a : Bytes)
    → is_up (read_new_lines m lines h).0 a ≡ last_said m lines a (is_up h a)
unfolding read_new_lines last_said
tail_says m [] h a = refl
tail_says m (line ∷ lines) h a =
    tail_says m lines (read_line (observe m line) h).0 a
    ∙ ap (last_said m lines a) (read_says a (observe m line) h)

-- The lines that the tail reads leave every address with the status that a scan of them would.
pub is_up-read_new_lines :
    (m : TagMap) (lines : List Bytes) (h : HealthChecker) (a : Bytes)
    → is_up (read_new_lines m lines h).0 a ≡ is_up (scan_log m lines h) a
is_up-read_new_lines m lines h a = tail_says m lines h a ∙ sym (is_up-scan_log m lines h a)

-- Every change tells of another status than the one before it.
unfoldable pub IsChanging : List (Bytes × Bool) → HealthChecker → Type 0
IsChanging [] h = Unit
IsChanging ((a, alive) ∷ cs) h = (is_up h a ≡ not alive) × IsChanging cs (set_status a alive h)

unfoldable pub replay : List (Bytes × Bool) → HealthChecker → HealthChecker
replay [] h = h
replay ((a, alive) ∷ cs) h = replay cs (set_status a alive h)

Told : HealthChecker × List (Bytes × Bool) → HealthChecker → Type 0
Told (h2, cs) h = IsChanging cs h × (replay cs h ≡ h2)

Told-read_line :
    (o : Option (Bytes × Bool)) (h : HealthChecker) (h2 : HealthChecker)
    (rest : List (Bytes × Bool))
    → Told (h2, rest) (read_line o h).0
    → Told (h2, (read_line o h).1 ++ rest) h
unfolding Told IsChanging replay read_line
Told-read_line none h h2 rest t = t
Told-read_line (some (a, alive)) h h2 rest t = elim (Bool-cases (xor (is_up h a) alive)) [
  | inl e ↦ let (x, y) = (rw e at t) in rw e ((xor-true (is_up h a) alive e, x), y)
  | inr e ↦ rw e (rw e at t)
]

-- The changes that the tail notifies are true ones, each to another status than the address had, and made
-- on the statuses before they give those after.
pub replay-read_new_lines :
    (m : TagMap) (lines : List Bytes) (h : HealthChecker)
    → IsChanging (read_new_lines m lines h).1 h
      × (replay (read_new_lines m lines h).1 h ≡ (read_new_lines m lines h).0)
unfolding read_new_lines Told IsChanging replay
replay-read_new_lines m [] h = (tt, refl)
replay-read_new_lines m (line ∷ lines) h =
    Told-read_line (observe m line) h _ _
      (replay-read_new_lines m lines (read_line (observe m line) h).0)
