-- ===== src/Metrics/History.antt =====
-- What the counters hold after any history of calls.
use proxy_balacer.Base.{
  ℕ, zero, suc, ◌+◌, ◌-◌, ◌%◌, ◌^◌, ◌≤◌, ◌<◌, ◌≡◌, refl, ap, ◌∙◌, arith, List, [], ◌∷◌, ◌++◌,
  length, drop, ltb, length-append, length-drop, Bool-cases, inl, inr, append-nil, append_assoc,
}
use proxy_balacer.Metrics.{
  Metrics, new_metrics, tail, push_recent, record_connection, record_close, record_failure,
  record_retry, record_failover, record_failback, count_recent, conns_per_minute,
}

-- A call of the metrics, with the time at which it is made.
pub data Call : Type 0 where
  connection failure failover failback : ℕ → Call
  close retry : Call

unfoldable pub apply : Call → Metrics → Metrics
unfolding record_connection record_close record_failure record_retry record_failover record_failback
apply (connection now) m = record_connection now m
apply (failure now) m = record_failure now m
apply (failover now) m = record_failover now m
apply (failback now) m = record_failback now m
apply close m = record_close m
apply retry m = record_retry m

unfoldable pub run : List Call → Metrics → Metrics
unfolding apply
run [] m = m
run (c ∷ cs) m = run cs (apply c m)

-- The times of the connections of a history, oldest first.
unfoldable pub connection_times : List Call → List ℕ
connection_times [] = []
connection_times (connection now ∷ cs) = now ∷ connection_times cs
connection_times (c ∷ cs) = connection_times cs

unfoldable pub closes : List Call → ℕ
closes [] = 0
closes (close ∷ cs) = suc (closes cs)
closes (c ∷ cs) = closes cs

-- The last 100 entries of a list.
unfoldable pub last_100 : List ℕ → List ℕ
last_100 ts = drop (length ts - 100) ts

drop_one : (n : ℕ) (ts : List ℕ) → n < length ts → drop (suc n) ts ≡ tail (drop n ts)
drop_one zero [] h = absurd (omega arith)
drop_one zero (t ∷ ts) h = refl
drop_one (suc n) [] h = absurd (omega arith)
drop_one (suc n) (t ∷ ts) h = drop_one n ts (omega arith)

drop-append : (n : ℕ) (ts us : List ℕ) → n ≤ length ts → drop n (ts ++ us) ≡ drop n ts ++ us
drop-append zero ts us h = refl
drop-append (suc n) [] us h = absurd (omega arith)
drop-append (suc n) (t ∷ ts) us h = drop-append n ts us (omega arith)

-- Keeping the last 100 as one goes is keeping the last 100 at the end.
push-last_100 :
    (ts : List ℕ) (now : ℕ) → push_recent (last_100 ts) now ≡ last_100 (ts ++ (now ∷ []))
unfolding push_recent last_100
push-last_100 ts now = elim (Bool-cases (ltb (length ts) 100)) [
  | inl few ↦
      let e : length ts - 100 ≡ 0 = ground arith in
      let e' : length (ts ++ (now ∷ [])) - 100 ≡ 0 = ground (arith, length-append ts (now ∷ [])) in
      rw (e, e') (ground (arith, length-append ts (now ∷ [])))
  | inr many ↦
      let n : ℕ = length ts - 100 in
      let e' : length (ts ++ (now ∷ [])) - 100 ≡ suc n =
        ground (arith, length-append ts (now ∷ [])) in
      ground (
        arith,
        ap (λ k. drop k (ts ++ (now ∷ []))) e',
        length-append (drop n ts) (now ∷ []),
        length-drop n ts,
        drop_one n (ts ++ (now ∷ [])),
        length-append ts (now ∷ []),
        drop-append n ts (now ∷ []),
      )
]

recent_conns-run :
    (cs : List Call) (m : Metrics) (ts : List ℕ)
    → m.recent_conns ≡ last_100 ts
    → (run cs m).recent_conns ≡ last_100 (ts ++ connection_times cs)
unfolding run connection_times
recent_conns-run [] m ts e = rw append-nil e
recent_conns-run (connection now ∷ cs) m ts e =
    recent_conns-run cs (apply (connection now) m) (ts ++ (now ∷ [])) (rw e (push-last_100 ts now))
    ∙ ap last_100 (append_assoc ts (now ∷ []) (connection_times cs))
recent_conns-run (c ∷ cs) m ts e = recent_conns-run cs (apply c m) ts e

length-last_100 : (ts : List ℕ) → length (last_100 ts) ≤ 100
unfolding last_100
length-last_100 ts = omega (arith, length-drop (length ts - 100) ts)

count-le-length : (now : ℕ) (ts : List ℕ) → count_recent now ts ≤ length ts
unfolding count_recent
count-le-length now [] = omega arith
count-le-length now (t ∷ ts) = ground (arith, count-le-length now ts)

-- After any history since the start, the list of recent connections holds the times of the last 100
-- connections, whatever else was recorded in between, so the gauge counts those of them that lie
-- within the last minute, and never shows more than 100.
pub recent-run :
    (cs : List Call) (start now : ℕ)
    → ((run cs (new_metrics start)).recent_conns ≡ last_100 (connection_times cs))
      × (conns_per_minute now (run cs (new_metrics start)) ≤ 100)
unfolding conns_per_minute new_metrics last_100
recent-run cs start now =
    let e = recent_conns-run cs (new_metrics start) [] refl in
    (
      e,
      rw e (
          omega (
            arith,
            count-le-length now (last_100 (connection_times cs)),
            length-last_100 (connection_times cs),
          )),
    )

counts-run :
    (cs : List Call) (m : Metrics)
    → m.total_connections < 2 ^ 64
    → m.active_connections < 2 ^ 64
    → ((run cs m).total_connections ≡ (m.total_connections + length (connection_times cs)) % 2 ^ 64)
      × (((run cs m).active_connections + closes cs) % 2 ^ 64
          ≡ (m.active_connections + length (connection_times cs)) % 2 ^ 64)
      × ((run cs m).active_connections < 2 ^ 64)
unfolding run connection_times closes
counts-run [] m h k = omega arith
counts-run (connection now ∷ cs) m h k =
    omega (arith, counts-run cs (apply (connection now) m) (omega arith) (omega arith))
counts-run (close ∷ cs) m h k = omega (arith, counts-run cs (apply close m) h (omega arith))
counts-run (c ∷ cs) m h k = counts-run cs (apply c m) h k

-- After any history with fewer than 2 ^ 63 connections and no more closes than connections, the total
-- is the number of connections and the active count is that of connections less that of closes.
pub active-run :
    (cs : List Call) (start : ℕ)
    → length (connection_times cs) < 2 ^ 63
    → closes cs ≤ length (connection_times cs)
    → ((run cs (new_metrics start)).total_connections ≡ length (connection_times cs))
      × ((run cs (new_metrics start)).active_connections ≡ length (connection_times cs) - closes cs)
unfolding new_metrics
active-run cs start h k =
    omega (arith, counts-run cs (new_metrics start) (omega arith) (omega arith))
