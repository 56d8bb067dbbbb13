-- ===== src/Links/Fetch.antt =====
-- subscription_fetch.go: `FetchSubscriptionURL`.
pub mod RoundTrip
use proxy_balacer.Base.{
  ℕ, Bytes, Bool, true, false, ◌||◌, List, [], ◌∷◌, Option, none, some, codes, has_prefix, ◌==◌,
  ◌=ᵇ◌, if◌then◌else◌, Result, ok, err,
}
use proxy_balacer.Base64.{trim_space, decode_std, decode_raw}
use proxy_balacer.Links.{vmess_prefix, vless_prefix, trojan_prefix, ss_prefix}

-- What the request comes to.
pub data Response : Type 0 where
  no_response broken_body : Response
  body : Bytes → Response

pub data FetchError : Type 0 where
  request_failed read_failed empty_response bad_base64 : FetchError

unfoldable pub is_link : Bytes → Bool
is_link s =
    has_prefix s vmess_prefix
    || has_prefix s vless_prefix
    || has_prefix s trojan_prefix
    || has_prefix s ss_prefix

abbrev add_to_first : ℕ → List Bytes → List Bytes
add_to_first c [] = (c ∷ []) ∷ []
add_to_first c (l ∷ ls) = (c ∷ l) ∷ ls

-- `strings.Split` at the line feeds.
unfoldable pub split_lines : Bytes → List Bytes
split_lines [] = [] ∷ []
split_lines (c ∷ s) = let rest = split_lines s in if c == 10 then [] ∷ rest else add_to_first c rest

-- The lines that are not blank, trimmed.
unfoldable pub keep_lines : List Bytes → List Bytes
keep_lines [] = []
keep_lines (l ∷ ls) =
    let rest = keep_lines ls in if trim_space l =ᵇ [] then rest else trim_space l ∷ rest

unfoldable pub configs_of : Bytes → List Bytes
unfolding split_lines keep_lines
configs_of decoded = keep_lines (split_lines (trim_space decoded))

unfoldable pub or_raw : Option Bytes → Option Bytes → Result FetchError (List Bytes)
unfolding configs_of
or_raw (some d) raw = ok (configs_of d)
or_raw none (some d) = ok (configs_of d)
or_raw none none = err bad_base64

unfoldable pub read_content : Bytes → Result FetchError (List Bytes)
unfolding is_link or_raw configs_of
read_content content =
    if content =ᵇ []
    then err empty_response
    else if is_link content
    then ok (configs_of content)
    else or_raw (decode_std content) (decode_raw content)

unfoldable pub fetch_subscription_url : Response → Result FetchError (List Bytes)
unfolding read_content
fetch_subscription_url no_response = err request_failed
fetch_subscription_url broken_body = err read_failed
fetch_subscription_url (body s) = read_content (trim_space s)
