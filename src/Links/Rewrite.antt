-- ===== src/Links/Rewrite.antt =====
-- subscription.go: `rewriteRawLink` and `GenerateSubscription`.
--
-- The pattern `@[^:]+:\d+` is written out: behind an `@`, a run of characters up to the first colon, and
-- digits. The host that is put in holds no `$`, which would be a template. What `encoding/json` makes of a
-- vmess link with another host and port is an argument, and so are the links that are generated for rows
-- without one of their own, which no import makes.
pub mod Hosts
pub mod Subscription
use proxy_balacer.Base.{
  ℕ, zero, suc, ◌+◌, Bytes, Bool, true, false, ◌&&◌, ◌||◌, not, List, [], ◌∷◌, ◌++◌, Option, none,
  some, leb, ◌==◌, ◌=ᵇ◌, if◌then◌else◌, length, drop, has_prefix, decimal, Result, ok, err, panic,
}
use proxy_balacer.Base64.{decode_std, encode_std}
use proxy_balacer.Models.{SubConfig}
use proxy_balacer.Links.{cut, vmess_prefix, vless_prefix, trojan_prefix, ss_prefix}

unfoldable pub digits_length : Bytes → ℕ
digits_length [] = 0
digits_length (c ∷ s) = let n = digits_length s in if leb b'0' c && leb c b'9' then suc n else 0

-- The length of a match behind an `@`, or 0.
unfoldable pub match_parts : Option (Bytes × Bytes) → ℕ
unfolding digits_length
match_parts none = 0
match_parts (some ([], rest)) = 0
match_parts (some (x ∷ run, rest)) =
    if digits_length rest == 0 then 0 else length (x ∷ run) + 1 + digits_length rest

unfoldable pub match_length : Bytes → ℕ
unfolding match_parts cut
match_length s = match_parts (cut b':' s)

-- `ReplaceAllString`, with what is left to skip of the last match.
unfoldable pub replace_hosts : Bytes → ℕ → Bytes → Bytes
unfolding match_length
replace_hosts new k [] = []
replace_hosts new (suc k) (c ∷ s) = replace_hosts new k s
replace_hosts new zero (c ∷ s) =
    let n = if c == b'@' then match_length s else 0 in
    let rest = replace_hosts new n s in if n == 0 then c ∷ rest else new ++ rest

unfoldable pub has_byte : ℕ → Bytes → Bool
has_byte c [] = false
has_byte c (x ∷ s) = (x == c) || has_byte c s

-- A result that has lost the `#` of the link is sliced at -1.
unfoldable pub keep_fragment : Bytes → Bytes → Result (Unit {0}) Bytes
unfolding has_byte
keep_fragment link result =
    if has_byte b'#' link && not (has_byte b'#' result) then panic else ok result

abbrev pub Remarshal : Type 0
Remarshal = Bytes → Bytes → Bytes → Option Bytes

abbrev remarshalled : Bytes → Option Bytes → Bytes
remarshalled link none = link
remarshalled link (some s) = vmess_prefix ++ encode_std s

unfoldable pub rewrite_vmess : Remarshal → Bytes → Bytes → ℕ → Option Bytes → Bytes
rewrite_vmess json link host port none = link
rewrite_vmess json link host port (some d) = remarshalled link (json d host (decimal port))

unfoldable pub rewrite_raw_link : Remarshal → Bytes → Bytes → ℕ → Result (Unit {0}) Bytes
unfolding rewrite_vmess keep_fragment replace_hosts
rewrite_raw_link json link host port =
    if has_prefix link vmess_prefix
    then ok (rewrite_vmess json link host port (decode_std (drop (length vmess_prefix) link)))
    else if has_prefix link vless_prefix
        || has_prefix link trojan_prefix
        || has_prefix link ss_prefix
    then keep_fragment link (replace_hosts (b'@' ∷ (host ++ (b':' ∷ decimal port))) 0 link)
    else ok link

unfoldable pub has_link : Bytes → List Bytes → Bool
has_link l [] = false
has_link l (m ∷ ls) = (m =ᵇ l) || has_link l ls

-- A link that is new and not empty.
unfoldable pub add_link : Bytes → List Bytes → List Bytes
unfolding has_link
add_link l links = if (l =ᵇ []) || has_link l links then links else links ++ (l ∷ [])

unfoldable pub link_of :
    Remarshal → (SubConfig → Bytes) → Bytes → ℕ → SubConfig → Result (Unit {0}) Bytes
unfolding rewrite_raw_link
link_of json other host port cfg =
    if cfg.raw_link =ᵇ [] then ok (other cfg) else rewrite_raw_link json cfg.raw_link host port

unfoldable pub with_link :
    Result (Unit {0}) Bytes
    → (List Bytes → Result (Unit {0}) (List Bytes))
    → List Bytes
    → Result (Unit {0}) (List Bytes)
unfolding add_link
with_link (ok l) again links = again (add_link l links)
with_link (err e) again links = err e
with_link panic again links = panic

unfoldable pub collect_links :
    Remarshal
    → (SubConfig → Bytes)
    → Bytes
    → ℕ
    → List SubConfig
    → List Bytes
    → Result (Unit {0}) (List Bytes)
unfolding with_link link_of
collect_links json other host port [] links = ok links
collect_links json other host port (cfg ∷ cfgs) links =
    with_link (link_of json other host port cfg) (collect_links json other host port cfgs) links

-- `strings.Join` with line feeds.
unfoldable pub join_lines : List Bytes → Bytes
join_lines [] = []
join_lines (l ∷ []) = l
join_lines (l ∷ m ∷ ls) = l ++ (10 ∷ join_lines (m ∷ ls))

unfoldable pub encode_links : Result (Unit {0}) (List Bytes) → Result (Unit {0}) Bytes
unfolding join_lines
encode_links (ok []) = ok []
encode_links (ok (l ∷ ls)) = ok (encode_std (join_lines (l ∷ ls)))
encode_links (err e) = err e
encode_links panic = panic

unfoldable pub generate_subscription :
    Remarshal → (SubConfig → Bytes) → List SubConfig → Bytes → ℕ → Result (Unit {0}) Bytes
unfolding encode_links collect_links
generate_subscription json other cfgs host port =
    encode_links (collect_links json other host port cfgs [])
