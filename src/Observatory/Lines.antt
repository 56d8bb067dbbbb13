-- ===== src/Observatory/Lines.antt =====
-- What a line of the observatory's log says, given by its text.
use proxy_balacer.Base.{
  ◌≡◌, ◌≢◌, refl, ◌∙◌, ap, Bytes, Bool, true, false, List, [], ◌∷◌, ◌++◌, All, some, none,
  has_prefix, lookup, codes, arith, Option, drop-length_append, ◌=ᵇ◌, text_eq_iff, Bool-cases, inl,
  inr, text_eq_sound,
}
use proxy_balacer.Health.{HealthChecker, is_up}
use proxy_balacer.Observatory.{
  TagMap, marker, is_space, span_word, match_end, match_at, or_later, find_submatch, resolve,
  observe, scan_log, read_new_lines,
}
use proxy_balacer.Observatory.Status.{says, last_said, tail_says, is_up-scan_log}

abbrev pub verdict : Bool → Bytes
verdict true = codes " is alive"
verdict false = codes " is dead"

-- The text that the observatory logs, begins nowhere in the first part, before the second.
abbrev pub Before : Bytes → Bytes → Type 0
Before [] rest = Unit
Before (c ∷ pre) rest = (has_prefix (c ∷ pre ++ rest) marker ≡ false) × Before pre rest

-- `app/observatory: the outbound proxy-<word> is alive` or `is dead`, and what follows it.
abbrev pub told : Bytes → Bool → Bytes → Bytes
told word alive post = marker ++ (word ++ (verdict alive ++ post))

-- The line holds such a text for the first time after `pre`.
pub record Tells (line word : Bytes) (alive : Bool) : Type 0 where
  pub pre : Bytes
  pub post : Bytes
  pub text : line ≡ pre ++ told word alive post
  pub first : Before pre (told word alive post)
  pub named : word ≢ []
  pub no_space : All (λ c. is_space c ≡ false) word

span_verdict :
    (alive : Bool) (post : Bytes) → span_word (verdict alive ++ post) ≡ ([], verdict alive ++ post)
unfolding span_word is_space
span_verdict true post = refl
span_verdict false post = refl

span-word :
    (word rest : Bytes)
    → All (λ c. is_space c ≡ false) word
    → span_word rest ≡ ([], rest)
    → span_word (word ++ rest) ≡ (word, rest)
unfolding span_word
span-word [] rest n e = e
span-word (c ∷ word) rest (p, n) e = rw (p, span-word word rest n e) refl

end_verdict :
    (word : Bytes) (alive : Bool) (post : Bytes)
    → word ≢ []
    → match_end (word, verdict alive ++ post) ≡ some (codes "proxy-" ++ word, alive)
unfolding match_end has_prefix ◌=ᵇ◌
end_verdict [] alive post n = absurd (n refl)
end_verdict (c ∷ word) true post n = refl
end_verdict (c ∷ word) false post n = refl

prefix_marker : (s : Bytes) → has_prefix (marker ++ s) marker ≡ true
unfolding has_prefix
prefix_marker s = refl

match-told :
    (word : Bytes) (alive : Bool) (post : Bytes)
    → word ≢ []
    → All (λ c. is_space c ≡ false) word
    → match_at (told word alive post) ≡ some (codes "proxy-" ++ word, alive)
unfolding match_at
match-told word alive post n k =
    rw
      (
        prefix_marker (word ++ (verdict alive ++ post)),
        drop-length_append marker (word ++ (verdict alive ++ post)),
        span-word word (verdict alive ++ post) k (span_verdict alive post),
      )
      (end_verdict word alive post n)

find_here : (s : Bytes) (x : Bytes × Bool) → match_at s ≡ some x → find_submatch s ≡ some x
unfolding find_submatch or_later
find_here [] x e = e
find_here (c ∷ s) x e = rw e refl

skip_match : (s : Bytes) → has_prefix s marker ≡ false → match_at s ≡ none
unfolding match_at
skip_match s e = rw e refl

find-told :
    (pre rest : Bytes) (x : Bytes × Bool)
    → Before pre rest
    → match_at rest ≡ some x
    → find_submatch (pre ++ rest) ≡ some x
unfolding find_submatch or_later
find-told [] rest x b e = find_here rest x e
find-told (c ∷ pre) rest x (p, b) e = rw (skip_match (c ∷ pre ++ rest) p) (find-told pre rest x b e)

find-Tells :
    (line word : Bytes) (alive : Bool)
    → Tells line word alive
    → find_submatch line ≡ some (codes "proxy-" ++ word, alive)
find-Tells line word alive t =
    ap find_submatch t.text
    ∙ find-told t.pre (told word alive t.post) _ t.first
        (match-told word alive t.post t.named t.no_space)

observe-Tells :
    (m : TagMap) (line word a : Bytes) (alive : Bool)
    → Tells line word alive
    → lookup (codes "proxy-" ++ word) m ≡ some a
    → observe m line ≡ some (a, alive)
unfolding observe resolve
observe-Tells m line word a alive t k = rw (find-Tells line word alive t) (rw (k, resolve) refl)

-- No line says anything of the address.
abbrev pub Silent : TagMap → Bytes → List Bytes → Type 0
Silent m a lines = All (λ line. (alive : Bool) → observe m line ≢ some (a, alive)) lines

says_other :
    (a : Bytes) (o : Option (Bytes × Bool)) (before : Bool)
    → ((alive : Bool) → o ≢ some (a, alive))
    → says a o before ≡ before
unfolding says
says_other a none before n = refl
says_other a (some (b, alive)) before n = elim (Bool-cases (b =ᵇ a)) [
  | inl same ↦ absurd (n alive (ap (λ c. some (c, alive)) (text_eq_sound b a same)))
  | inr other ↦ rw other refl
]

says_same : (a : Bytes) (alive before : Bool) → says a (some (a, alive)) before ≡ alive
unfolding says
says_same a alive before = ground (arith, text_eq_iff a a)

last_quiet :
    (m : TagMap) (lines : List Bytes) (a : Bytes) (before : Bool)
    → Silent m a lines
    → last_said m lines a before ≡ before
unfolding last_said
last_quiet m [] a before n = refl
last_quiet m (line ∷ lines) a before (p, n) =
    last_quiet m lines a _ n ∙ says_other a (observe m line) before p

last-append :
    (m : TagMap) (earlier lines : List Bytes) (a : Bytes) (before : Bool)
    → last_said m (earlier ++ lines) a before ≡ last_said m lines a (last_said m earlier a before)
unfolding last_said
last-append m [] lines a before = refl
last-append m (line ∷ earlier) lines a before = last-append m earlier lines a _

last_told :
    (m : TagMap) (earlier later : List Bytes) (line word a : Bytes) (alive before : Bool)
    → Tells line word alive
    → lookup (codes "proxy-" ++ word) m ≡ some a
    → Silent m a later
    → last_said m (earlier ++ (line ∷ later)) a before ≡ alive
unfolding last_said
last_told m earlier later line word a alive before t k n =
    last-append m earlier (line ∷ later) a before
    ∙ last_quiet m later a _ n
    ∙ ap (λ o. says a o (last_said m earlier a before)) (observe-Tells m line word a alive t k)
    ∙ says_same a alive _

-- The last line that says something of an address decides its status, for the tail of the log as for the
-- scan of it: where a line holds the observatory's text that the outbound is alive, or that it is dead,
-- for the first time after some other text, the outbound is one with that address, and no line after it
-- says anything of the address, the address is up, or down.
pub is_up-last_line :
    (m : TagMap) (earlier later : List Bytes) (line word a : Bytes) (alive : Bool)
    (h : HealthChecker)
    → Tells line word alive
    → lookup (codes "proxy-" ++ word) m ≡ some a
    → Silent m a later
    → (is_up (read_new_lines m (earlier ++ (line ∷ later)) h).0 a ≡ alive)
      × (is_up (scan_log m (earlier ++ (line ∷ later)) h) a ≡ alive)
is_up-last_line m earlier later line word a alive h t k n =
    let e = last_told m earlier later line word a alive (is_up h a) t k n in
    (
      tail_says m (earlier ++ (line ∷ later)) h a ∙ e,
      is_up-scan_log m (earlier ++ (line ∷ later)) h a ∙ e,
    )
