-- ===== src/Links/Remark.antt =====
-- The UUID that `extractRealityParams` gives, and what a backend does with it.
use proxy_balacer.Base.{
  ℕ, ◌≡◌, refl, ap, sym, ◌∙◌, Bytes, Bool-cases, false, [], ◌∷◌, ◌++◌, Option, none, some,
  All-append, ◌==◌, ◌=ᵇ◌, codes, has_prefix, Result, ok, err, panic, inl, inr,
}
use proxy_balacer.Models.{Backend}
use proxy_balacer.Io.{Conn}
use proxy_balacer.Vless.Header.{VlessHeader}
use proxy_balacer.Vless.Uuid.{UuidError, bad_length, parse_uuid}
use proxy_balacer.Reality.Dial.{DialWorld}
use proxy_balacer.Proxy.Upstream.{bad_uuid, TargetHost, with_uuid, proxy_to_backend}
use proxy_balacer.Links.{
  Library, Values, ServerInfo, cut, or_text, extract_server_info, vless_prefix, vmess_prefix,
}
use proxy_balacer.Links.Server.{Without}
use proxy_balacer.Links.Params.{
  RealityParams, fragment, link_info, parse_config_link, vmess_params, query_params, params_at,
  extract_reality_params,
}

vmess-uuid : (u : Bytes) (o : Option Values) → (vmess_params u o).uuid ≡ u
unfolding vmess_params
vmess-uuid u none = refl
vmess-uuid u (some v) = refl

query-uuid : (u host : Bytes) (o : Option Values) → (query_params u host o).uuid ≡ u
unfolding query_params
query-uuid u host none = refl
query-uuid u host (some q) = refl

abbrev uuid_or : Bytes → Result (Unit {0}) RealityParams → Bytes
uuid_or u (ok p) = p.uuid
uuid_or u (err e) = u
uuid_or u panic = u

params_lem :
    (lib : Library) (link u : Bytes) (r : Result (Unit {0}) ServerInfo)
    → uuid_or u (params_at lib link u r) ≡ u
unfolding params_at
params_lem lib link u (ok i) = elim (Bool-cases (has_prefix link vmess_prefix)) [
  | inl e ↦ rw e (vmess-uuid u _)
  | inr e ↦ rw e (query-uuid u i.host (lib.query link))
]
params_lem lib link u (err e) = refl
params_lem lib link u panic = refl

-- Whatever the link, the UUID is its remark.
extract-remark :
    (lib : Library) (link : Bytes) (p : RealityParams)
    → extract_reality_params lib link ≡ ok p
    → p.uuid ≡ (parse_config_link lib link).remark
unfolding extract_reality_params
extract-remark lib link p e =
    let u = (parse_config_link lib link).remark in
    sym (ap (uuid_or u) e) ∙ params_lem lib link u (extract_server_info lib link)

no_cut : (c : ℕ) (s : Bytes) → Without c s → cut c s ≡ none
unfolding cut
no_cut c [] h = refl
no_cut c (x ∷ s) (p, h) = rw (p, no_cut c s h) refl

plain-remark :
    (lib : Library) (s : Bytes)
    → Without b'#' s
    → (parse_config_link lib (vless_prefix ++ s)).remark ≡ codes "vless"
unfolding parse_config_link has_prefix link_info or_text fragment ◌=ᵇ◌
plain-remark lib s h =
    rw
      (no_cut b'#' (vless_prefix ++ s) (
        All-append (λ x. (x == b'#') ≡ false) vless_prefix s
          (refl, (refl, (refl, (refl, (refl, (refl, (refl, (refl, tt)))))))) h))
      refl

parse_vless : (parse_uuid (codes "vless")).1 ≡ some (bad_length 5)
unfolding parse_uuid
parse_vless = refl

refuses :
    (dw : DialWorld) (c : Conn) (target : Option (ℕ × TargetHost)) (be : Backend)
    (client : VlessHeader) (r : Bytes × Option UuidError)
    → r.1 ≡ some (bad_length 5)
    → with_uuid dw c target be client r ≡ err (bad_uuid (bad_length 5))
unfolding with_uuid
refuses dw c target be client (u, some e) q = ap (λ o. with_uuid dw c target be client (u, o)) q
refuses dw c target be client (u, none) q = cc

-- A backend with the UUID that is read from a link of VLESS without a `#` never serves a connection: its
-- UUID is the word `vless`, which does not parse, whatever the user of the link is.
pub proxy_to_backend-unnamed :
    (lib : Library) (s : Bytes) (p : RealityParams) (dw : DialWorld) (c : Conn)
    (target : Option (ℕ × TargetHost)) (be : Backend) (client : VlessHeader)
    → Without b'#' s
    → extract_reality_params lib (vless_prefix ++ s) ≡ ok p
    → be.uuid ≡ p.uuid
    → proxy_to_backend dw c target be client ≡ err (bad_uuid (bad_length 5))
unfolding proxy_to_backend
proxy_to_backend-unnamed lib s p dw c target be client h e q =
    refuses dw c target be client (parse_uuid be.uuid) (
      ap (λ (u : Bytes). (parse_uuid u).1)
        (q ∙ extract-remark lib (vless_prefix ++ s) p e ∙ plain-remark lib s h)
      ∙ parse_vless)
