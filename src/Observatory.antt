-- ===== src/Observatory.antt =====
-- observatory.go: the status of backends read from the log of Xray's observatory.
--
-- The map from the tags of outbounds to addresses comes from Xray's configuration. The lines of the log are
-- an argument: those of the whole file for `scanLog`, and those after the last offset for `readNewLines`.
pub mod Status
pub mod Lines
use proxy_balacer.Base.{
  ℕ, zero, suc, ◌||◌, ◌&&◌, Bytes, Bool, true, false, List, [], ◌∷◌, ◌++◌, Option, none, some,
  codes, drop, length, has_prefix, lookup, insert, ◌=ᵇ◌, ◌==◌, not, if◌then◌else◌, xor, ℤ, pos,
  negsuc, decimal,
}
use proxy_balacer.Health.{HealthChecker, set_status, is_up}
use proxy_balacer.Json.{Json, Items, nil, cons, Fields, get_field, as_string, as_object, as_array}
use proxy_balacer.Xray.{vnext_of, port_value}

-- What `\S` does not match.
unfoldable pub is_space : ℕ → Bool
is_space c = (c == 9) || ((c == 10) || ((c == 12) || ((c == 13) || (c == 32))))

-- The longest run of bytes that are no spaces, and what follows it.
unfoldable pub span_word : Bytes → Bytes × Bytes
unfolding is_space
span_word [] = ([], [])
span_word (c ∷ s) =
    let rest = span_word s in if is_space c then ([], c ∷ s) else (c ∷ rest.0, rest.1)

abbrev pub marker : Bytes
marker = codes "app/observatory: the outbound proxy-"

-- The end of the pattern: a space follows the tag, so that the tag ends where the run of bytes does.
unfoldable pub match_end : Bytes × Bytes → Option (Bytes × Bool)
match_end ([], s) = none
match_end (c ∷ word, s) =
    if has_prefix s (codes " is alive")
    then some (codes "proxy-" ++ (c ∷ word), true)
    else if has_prefix s (codes " is dead")
    then some (codes "proxy-" ++ (c ∷ word), false)
    else none

unfoldable pub match_at : Bytes → Option (Bytes × Bool)
unfolding match_end span_word
match_at s = if has_prefix s marker then match_end (span_word (drop (length marker) s)) else none

unfoldable pub or_later : Option (Bytes × Bool) → Option (Bytes × Bool) → Option (Bytes × Bool)
or_later none later = later
or_later (some m) later = some m

-- `observatoryRe.FindStringSubmatch`: the leftmost match, as its tag and whether it says alive.
unfoldable pub find_submatch : Bytes → Option (Bytes × Bool)
unfolding match_at or_later
find_submatch [] = match_at []
find_submatch (c ∷ s) = or_later (match_at (c ∷ s)) (find_submatch s)

abbrev pub TagMap : Type 0
TagMap = List (Bytes × Bytes)

-- The address of the first server of an outbound, where it has a name and a port above 0.
unfoldable pub server_addr : Bytes → ℤ → Option Bytes
server_addr a (pos zero) = none
server_addr a (pos (suc n)) = if a =ᵇ [] then none else some (a ++ (b':' ∷ decimal (suc n)))
server_addr a (negsuc n) = none

unfoldable pub first_server : Option Items → Option Bytes
unfolding server_addr port_value
first_server none = none
first_server (some nil) = none
first_server (some (cons v vs)) = elim (as_object (some v)) [
  | none ↦ none
  | some vn ↦
      server_addr (as_string (get_field (codes "address") vn))
        (port_value (get_field (codes "port") vn))
]

unfoldable pub add_tag : Bytes → Option Bytes → TagMap → TagMap
add_tag tag none m = m
add_tag tag (some a) m = insert tag a m

unfoldable pub add_outbound : Fields → TagMap → TagMap
unfolding add_tag first_server vnext_of
add_outbound ob m =
    if has_prefix (as_string (get_field (codes "tag") ob)) (codes "proxy-")
    then add_tag (as_string (get_field (codes "tag") ob)) (first_server (vnext_of ob)) m
    else m

unfoldable pub add_outbounds : Items → TagMap → TagMap
unfolding add_outbound
add_outbounds nil m = m
add_outbounds (cons o os) m =
    add_outbounds os (elim (as_object (some o)) [ none ↦ m | some ob ↦ add_outbound ob m ])

-- `loadTagMap` on the decoded configuration, where the file can be read and parsed.
unfoldable pub load_tag_map : Fields → TagMap → TagMap
unfolding add_outbounds
load_tag_map cfg m = elim (as_array (get_field (codes "outbounds") cfg)) [
  | none ↦ m
  | some outbounds ↦ add_outbounds outbounds m
]

unfoldable pub resolve : TagMap → Option (Bytes × Bool) → Option (Bytes × Bool)
resolve m none = none
resolve m (some (tag, alive)) = elim (lookup tag m) [ none ↦ none | some a ↦ some (a, alive) ]

-- What a line says of an address that is known.
unfoldable pub observe : TagMap → Bytes → Option (Bytes × Bool)
unfolding resolve find_submatch
observe m line = resolve m (find_submatch line)

unfoldable pub scan_line : Option (Bytes × Bool) → HealthChecker → HealthChecker
scan_line none h = h
scan_line (some (a, alive)) h = set_status a alive h

-- `scanLog`.
unfoldable pub scan_log : TagMap → List Bytes → HealthChecker → HealthChecker
unfolding scan_line observe
scan_log m [] h = h
scan_log m (line ∷ lines) h = scan_log m lines (scan_line (observe m line) h)

-- The status after a line, and the call of `notifyChange`, where it has changed.
unfoldable pub read_line :
    Option (Bytes × Bool) → HealthChecker → HealthChecker × List (Bytes × Bool)
read_line none h = (h, [])
read_line (some (a, alive)) h =
    if xor (is_up h a) alive then (set_status a alive h, (a, alive) ∷ []) else (h, [])

-- The loop of `readNewLines`, with the changes that it notifies.
unfoldable pub read_new_lines :
    TagMap → List Bytes → HealthChecker → HealthChecker × List (Bytes × Bool)
unfolding read_line observe
read_new_lines m [] h = (h, [])
read_new_lines m (line ∷ lines) h =
    let (h1, changes) = read_line (observe m line) h in
    let (h2, rest) = read_new_lines m lines h1 in (h2, changes ++ rest)
