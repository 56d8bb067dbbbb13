-- ===== src/Tests/Observatory.antt =====
-- Lines of the observatory's log.
use proxy_balacer.Base.{
  Bytes, codes, [], ◌∷◌, some, none, ◌≡◌, refl, true, false, ◌=ᵇ◌, lookup, insert, has_prefix, List,
  xor,
}
use proxy_balacer.Health.{new_health_checker, set_status, is_up}
use proxy_balacer.Observatory.{
  TagMap, find_submatch, match_at, match_end, or_later, span_word, is_space, observe, resolve,
  scan_log, read_new_lines, read_line,
}
use proxy_balacer.Observatory.Status.{IsChanging, replay, replay-read_new_lines}
use proxy_balacer.Observatory.Lines.{Tells, is_up-last_line}

abbrev alive_line : Bytes
alive_line = codes "x app/observatory: the outbound proxy-a is alive"

abbrev dead_line : Bytes
dead_line = codes "app/observatory: the outbound proxy-a is dead:"

matched : find_submatch alive_line ≡ some (codes "proxy-a", true)
unfolding find_submatch match_at match_end or_later span_word is_space has_prefix
matched = refl

unmatched : find_submatch (codes "the outbound proxy-a is alive") ≡ none
unfolding find_submatch match_at match_end or_later span_word is_space has_prefix
unmatched = refl

abbrev tags : TagMap
tags = (codes "proxy-a", codes "a:443") ∷ []

abbrev lines : List Bytes
lines = alive_line ∷ alive_line ∷ dead_line ∷ []

told :
    (read_new_lines tags lines (new_health_checker 0)).1
    ≡ (codes "a:443", true) ∷ (codes "a:443", false) ∷ []
unfolding read_new_lines read_line observe resolve find_submatch match_at match_end or_later
    span_word is_space has_prefix lookup insert is_up set_status new_health_checker xor ◌=ᵇ◌
told = refl

alive_line-Tells : Tells alive_line (codes "a") true
unfolding is_space has_prefix ◌=ᵇ◌
alive_line-Tells = record {
  pre = codes "x ";
  post = [];
  text = refl;
  first = (refl, (refl, tt));
  named = λ e. cc;
  no_space = (refl, tt);
}

named : lookup (codes "proxy-a") tags ≡ some (codes "a:443")
unfolding lookup ◌=ᵇ◌
named = refl

is_up-last_line_example :
    (is_up
        (read_new_lines tags (dead_line ∷ alive_line ∷ []) (new_health_checker 0)).0
        (codes "a:443")
      ≡ true)
    × (is_up (scan_log tags (dead_line ∷ alive_line ∷ []) (new_health_checker 0)) (codes "a:443")
        ≡ true)
is_up-last_line_example =
    is_up-last_line tags (dead_line ∷ []) [] alive_line (codes "a") (codes "a:443") true
      (new_health_checker 0) alive_line-Tells named tt

replay-read_new_lines_example :
    IsChanging (read_new_lines tags lines (new_health_checker 0)).1 (new_health_checker 0)
    × (replay (read_new_lines tags lines (new_health_checker 0)).1 (new_health_checker 0)
        ≡ (read_new_lines tags lines (new_health_checker 0)).0)
replay-read_new_lines_example = replay-read_new_lines tags lines (new_health_checker 0)
