-- ===== src/Health/Best.antt =====
-- The choice of `best_up`: an address that is up with the least ping, the first of those.
use proxy_balacer.Base.{
  ℕ, ◌≤◌, ◌≡◌, refl, arith, Bytes, true, false, List, [], ◌∷◌, All, Option, none, some, ltb,
  if◌then◌else◌, length, ◌⊎◌, inl, inr, Bool-cases, ap, ◌∙◌,
}
use mathlib.Core.List.{Mem, mem-cons_self, mem-cons_of_mem, Mem-prop, eq-or-mem_of_mem-cons}
use mathlib.Core.Logic.Or
use proxy_balacer.Health.{
  HealthChecker, Candidate, is_up, effective_ping, candidates, insert_sorted, sort_from, first_addr,
  best_up,
}

-- The first of the nearest addresses, in one pass.
unfoldable pub nearest : HealthChecker → Option Candidate → List Bytes → Option Candidate
nearest h best [] = best
nearest h none (a ∷ addrs) =
    nearest h (if is_up h a then some (record { addr = a; ping = effective_ping h a }) else none)
      addrs
nearest h (some c) (a ∷ addrs) =
    nearest h
      (if is_up h a
        then (if ltb (effective_ping h a) c.ping
            then some (record { addr = a; ping = effective_ping h a })
            else some c)
        else some c)
      addrs

abbrev head? : List Candidate → Option Candidate
head? [] = none
head? (c ∷ cs) = some c

abbrev pub addr_or_empty : Option Candidate → Bytes
addr_or_empty none = []
addr_or_empty (some c) = c.addr

abbrev candidate : HealthChecker → Bytes → Candidate
candidate h a = record { addr = a; ping = effective_ping h a }

skip_second : (x c a : Bytes) (addrs : List Bytes) → Mem x (c ∷ addrs) → Mem x (c ∷ a ∷ addrs)
skip_second x c a addrs m =
    Or.elim Mem-prop (eq-or-mem_of_mem-cons m) (λ e. rw e mem-cons_self)
      (λ m'. mem-cons_of_mem c (mem-cons_of_mem a m'))

insert_front :
    (c d : Candidate) (ds : List Candidate)
    → ltb c.ping d.ping ≡ true
    → insert_sorted c (d ∷ ds) ≡ c ∷ d ∷ ds
unfolding insert_sorted
insert_front c d ds e = rw e

insert_behind :
    (c d : Candidate) (ds : List Candidate)
    → ltb c.ping d.ping ≡ false
    → insert_sorted c (d ∷ ds) ≡ d ∷ insert_sorted c ds
unfolding insert_sorted
insert_behind c d ds e = rw e

insert_first : (c : Candidate) → insert_sorted c [] ≡ c ∷ []
unfolding insert_sorted
insert_first c = refl

-- One more round of sorting, from equal lists.
resort :
    (h : HealthChecker) (addrs : List Bytes) {cs ds : List Candidate}
    → cs ≡ ds
    → head? (sort_from cs (candidates h addrs)) ≡ head? (sort_from ds (candidates h addrs))
resort h addrs e = ap (λ s. head? (sort_from s (candidates h addrs))) e

sort_from-nearest :
    (h : HealthChecker) (sorted : List Candidate) (addrs : List Bytes)
    → head? (sort_from sorted (candidates h addrs)) ≡ nearest h (head? sorted) addrs
unfolding candidates sort_from nearest
sort_from-nearest h [] [] = refl
sort_from-nearest h (c ∷ cs) [] = refl
sort_from-nearest h [] (a ∷ addrs) = elim (Bool-cases (is_up h a)) [
  | inl up ↦ rw up (
      resort h addrs (insert_first (candidate h a))
      ∙ sort_from-nearest h (candidate h a ∷ []) addrs)
  | inr down ↦ rw down (sort_from-nearest h [] addrs)
]
sort_from-nearest h (c ∷ cs) (a ∷ addrs) = elim (Bool-cases (is_up h a)) [
  | inl up ↦ elim (Bool-cases (ltb (effective_ping h a) c.ping)) [
    | inl nearer ↦
        rw (up, nearer)
          (resort h addrs (insert_front (candidate h a) c cs nearer)
            ∙ sort_from-nearest h (candidate h a ∷ c ∷ cs) addrs)
    | inr other ↦
        rw (up, other)
          (resort h addrs (insert_behind (candidate h a) c cs other)
            ∙ sort_from-nearest h (c ∷ insert_sorted (candidate h a) cs) addrs)
  ]
  | inr down ↦ rw down (sort_from-nearest h (c ∷ cs) addrs)
]

first-head? : (cs : List Candidate) → first_addr cs ≡ addr_or_empty (head? cs)
unfolding first_addr
first-head? [] = refl
first-head? (c ∷ cs) = refl

stable-nearest :
    (h : HealthChecker) (addrs : List Bytes)
    → best_up h addrs ≡ addr_or_empty (nearest h none addrs)
unfolding best_up
stable-nearest h addrs =
    first-head? (sort_from [] (candidates h addrs))
    ∙ ap addr_or_empty (sort_from-nearest h [] addrs)

-- Where at most twelve of the addresses are up, so that `sort.Slice` is the stable insertion sort, sorting
-- all candidates and taking the first is finding in one pass the first address that is up with the least
-- ping.
pub best_up-nearest :
    (h : HealthChecker) (addrs : List Bytes)
    → length (candidates h addrs) ≤ 12
    → best_up h addrs ≡ addr_or_empty (nearest h none addrs)
best_up-nearest h addrs few = stable-nearest h addrs

-- `c` stands for an address that is up, with its ping.
abbrev IsCandidate : HealthChecker → Candidate → Type 0
IsCandidate h c = (is_up h c.addr ≡ true) × (c.ping ≡ effective_ping h c.addr)

abbrev NoNearer : HealthChecker → ℕ → List Bytes → Type 0
NoNearer h ping addrs = All (λ a. is_up h a ≡ true → ping ≤ effective_ping h a) addrs

NoNearer-mono :
    (h : HealthChecker) (p q : ℕ) (addrs : List Bytes)
    → q ≤ p
    → NoNearer h p addrs
    → NoNearer h q addrs
NoNearer-mono h p q [] l n = tt
NoNearer-mono h p q (a ∷ addrs) l n = (λ up. omega (arith, n.0 up), NoNearer-mono h p q addrs l n.1)

-- From a candidate on: the result is it or one of the rest, and nothing met is nearer.
nearest-some :
    (h : HealthChecker) (c : Candidate) (addrs : List Bytes)
    → IsCandidate h c
    → (d : Candidate) × (nearest h (some c) addrs ≡ some d)
      × IsCandidate h d
      × (d.ping ≤ c.ping)
      × NoNearer h d.ping addrs
      × Mem d.addr (c.addr ∷ addrs)
unfolding nearest
nearest-some h c [] w = (c, refl, w, omega arith, tt, mem-cons_self)
nearest-some h c (a ∷ addrs) w = elim (Bool-cases (is_up h a)) [
  | inl up ↦ elim (Bool-cases (ltb (effective_ping h a) c.ping)) [
    | inl nearer ↦
        let (d, e, v, l, n, m) = nearest-some h (candidate h a) addrs (up, refl) in
        (d, rw (up, nearer) e, v, ground arith, (λ _. l, n), mem-cons_of_mem c.addr m)
    | inr other ↦
        let (d, e, v, l, n, m) = nearest-some h c addrs w in
        (d, rw (up, other) e, v, l, (λ _. ground arith, n), skip_second d.addr c.addr a addrs m)
  ]
  | inr down ↦
      let (d, e, v, l, n, m) = nearest-some h c addrs w in
      (d, rw down e, v, l, (λ up. cc, n), skip_second d.addr c.addr a addrs m)
]

nearest-none :
    (h : HealthChecker) (addrs : List Bytes)
    → ((nearest h none addrs ≡ none) × All (λ a. is_up h a ≡ false) addrs)
      ⊎ ((d : Candidate) × (nearest h none addrs ≡ some d)
          × IsCandidate h d
          × NoNearer h d.ping addrs
          × Mem d.addr addrs)
unfolding nearest
nearest-none h [] = inl (refl, tt)
nearest-none h (a ∷ addrs) = elim (Bool-cases (is_up h a)) [
  | inl up ↦
      let (d, e, v, l, n, m) = nearest-some h (candidate h a) addrs (up, refl) in
      inr (d, rw up e, v, (λ _. l, n), m)
  | inr down ↦ elim (nearest-none h addrs) [
    | inl (e, n) ↦ inl (rw down e, (down, n))
    | inr (d, e, v, n, m) ↦ inr (d, rw down e, v, (λ up. cc, n), mem-cons_of_mem a m)
  ]
]

-- Either no address is up and the result is empty, or the result is one of the addresses, it is up,
-- and no address that is up has a smaller ping (0 counting as 9999).
pub best_up_lem :
    (h : HealthChecker) (addrs : List Bytes)
    → ((best_up h addrs ≡ []) × All (λ a. is_up h a ≡ false) addrs)
      ⊎ (Mem (best_up h addrs) addrs
          × (is_up h (best_up h addrs) ≡ true)
          × All
              (λ a. is_up h a ≡ true → effective_ping h (best_up h addrs) ≤ effective_ping h a)
              addrs)
best_up_lem h addrs = elim (nearest-none h addrs) [
  | inl (e, n) ↦ inl (stable-nearest h addrs ∙ rw e, n)
  | inr (d, e, v, n, m) ↦
      let q : best_up h addrs ≡ d.addr = stable-nearest h addrs ∙ rw e in
      inr (rw q m, rw q v.0, rw (q, ← v.1) n)
]
