-- ===== src/Links.antt =====
-- subscription_fetch.go: the links of a subscription.
--
-- `Library` is what `encoding/json` makes of a decoded vmess link and `url.Parse` of a link.
pub mod Rewrite
pub mod Fetch
pub mod Params
pub mod Server
pub mod Remark
use proxy_balacer.Base.{
  ℕ, Bytes, Bool, true, false, ◌||◌, List, [], ◌∷◌, ◌++◌, Option, none, some, codes, has_prefix,
  ◌==◌, ◌=ᵇ◌, ltb, length, drop, if◌then◌else◌, ℤ, pos, negsuc, atoi, Result, ok, err, panic,
}
use proxy_balacer.Base64.{decode_std}

-- The fields of the struct that `extractServerInfo` decodes.
pub record Vmess : Type 0 where
  pub add : Bytes
  pub port : Bytes
  pub host : Bytes
  pub tls : Bytes

-- Keys with their first values.
abbrev pub Values : Type 0
Values = List (Bytes × Bytes)

unfoldable pub query_get : Bytes → Values → Bytes
query_get k [] = []
query_get k ((j, v) ∷ q) = let rest = query_get k q in if j =ᵇ k then v else rest

-- What the JSON of a vmess link decodes to: as the struct of the server, as that of the remark, and as a
-- map, of which only the strings count; then the texts of its settings, empty where it is none. And the
-- query of a link that parses as a URL.
pub record Library : Type 0 where
  pub vmess : Bytes → Option Vmess
  pub remark : Bytes → Option Bytes
  pub fields : Bytes → Option Values
  pub settings : Bytes → Bytes × Bytes
  pub query : Bytes → Option Values

abbrev pub vmess_prefix : Bytes
vmess_prefix = codes "vmess://"

abbrev pub vless_prefix : Bytes
vless_prefix = codes "vless://"

abbrev pub trojan_prefix : Bytes
trojan_prefix = codes "trojan://"

abbrev pub ss_prefix : Bytes
ss_prefix = codes "ss://"

abbrev put_before : ℕ → Option (Bytes × Bytes) → Option (Bytes × Bytes)
put_before x none = none
put_before x (some (a, b)) = some (x ∷ a, b)

-- What stands before the first `c`, and after it: `strings.Index` and its slices.
unfoldable pub cut : ℕ → Bytes → Option (Bytes × Bytes)
cut c [] = none
cut c (x ∷ s) = let rest = put_before x (cut c s) in if x == c then some ([], s) else rest

abbrev first_part : Bytes → Option (Bytes × Bytes) → Bytes
first_part s none = s
first_part s (some (a, b)) = a

-- The text up to the first `c`, or all of it.
unfoldable pub before : ℕ → Bytes → Bytes
unfolding cut
before c s = first_part s (cut c s)

pub record ServerInfo : Type 0 where
  pub host : Bytes
  pub port : ℤ
  pub sni : Bytes

abbrev pub no_server : ServerInfo
no_server = record { host = []; port = pos 0; sni = [] }

unfoldable pub or_text : Bytes → Bytes → Bytes
or_text s t = if s =ᵇ [] then t else s

unfoldable pub vmess_server : Option Vmess → ServerInfo
vmess_server none = no_server
vmess_server (some v) = record {
  host = v.add;
  port = atoi v.port;
  sni = if v.host =ᵇ [] then (if v.tls =ᵇ codes "tls" then v.add else []) else v.host;
}

abbrev pub decoded_with {ℓ} : {A : Type ℓ} → (Bytes → Option A) → Option Bytes → Option A
decoded_with f none = none
decoded_with f (some d) = f d

unfoldable pub host_port : Option (Bytes × Bytes) → Bytes × ℤ
host_port none = ([], pos 0)
host_port (some (host, port)) = (host, atoi port)

unfoldable pub query_sni : Bytes → Values → Bytes
unfolding or_text query_get
query_sni host q = or_text (query_get (codes "host") q) (
    or_text (query_get (codes "sni") q)
      (if query_get (codes "security") q =ᵇ codes "tls" then host else []))

-- The error of `url.Parse` is dropped, and its nil URL asked for the query.
unfoldable pub with_query : Bytes × ℤ → Option Values → Result (Unit {0}) ServerInfo
unfolding query_sni
with_query (host, port) none = panic
with_query (host, port) (some q) = ok (record { host = host; port = port; sni = query_sni host q })

unfoldable pub link_server : Option Values → Option (Bytes × Bytes) → Result (Unit {0}) ServerInfo
unfolding with_query host_port before cut
link_server q none = ok no_server
link_server q (some (user, rest)) = with_query (host_port (cut b':' (before b'?' rest))) q

-- The prefixes that are tried in order; a link has one of them at most.
unfoldable pub server_loop : Option Values → Bytes → List Bytes → Result (Unit {0}) ServerInfo
unfolding link_server cut
server_loop q link [] = ok no_server
server_loop q link (p ∷ ps) =
    let rest = server_loop q link ps in
    if has_prefix link p
    then elim (cut b'@' (drop (length p) link)) [
      | none ↦ rest
      | some parts ↦ link_server q (some parts)
    ]
    else rest

unfoldable pub extract_server_info : Library → Bytes → Result (Unit {0}) ServerInfo
unfolding vmess_server server_loop
extract_server_info lib link =
    if has_prefix link vmess_prefix
    then ok (vmess_server (decoded_with lib.vmess (decode_std (drop (length vmess_prefix) link))))
    else server_loop (lib.query link) link (vless_prefix ∷ trojan_prefix ∷ ss_prefix ∷ [])

abbrev pub is_positive : ℤ → Bool
is_positive (pos n) = ltb 0 n
is_positive (negsuc n) = false

unfoldable pub or_next :
    Result (Unit {0}) ServerInfo → Result (Unit {0}) ServerInfo → Result (Unit {0}) ServerInfo
or_next (ok i) rest = if i.host =ᵇ [] then rest else if is_positive i.port then ok i else rest
or_next (err e) rest = err e
or_next panic rest = panic

-- `ParseBackendFromSubscription`: the first link with a host and a port, or an error.
unfoldable pub parse_backend_from_subscription : Library → List Bytes → Result (Unit {0}) ServerInfo
unfolding or_next
parse_backend_from_subscription lib [] = err tt
parse_backend_from_subscription lib (link ∷ links) =
    or_next (extract_server_info lib link) (parse_backend_from_subscription lib links)
