-- ===== src/Links/Params.antt =====
-- subscription_fetch.go: the other fields of a link, and the row that is stored for it.
use proxy_balacer.Base.{
  ℕ, Bytes, [], ◌∷◌, Option, none, some, codes, has_prefix, ◌=ᵇ◌, length, drop, if◌then◌else◌,
  Result, ok, err, panic,
}
use proxy_balacer.Base64.{decode_std}
use proxy_balacer.Models.{SubConfig}
use proxy_balacer.Links.{
  Library, Values, ServerInfo, query_get, or_text, cut, decoded_with, extract_server_info,
  vmess_prefix, vless_prefix, trojan_prefix, ss_prefix,
}

pub record LinkInfo : Type 0 where
  pub remark : Bytes
  pub protocol : Bytes
  pub raw : Bytes

-- The text behind the first `#`, which is not the first character.
unfoldable pub fragment : Option (Bytes × Bytes) → Bytes
fragment none = []
fragment (some ([], s)) = []
fragment (some (x ∷ a, s)) = s

abbrev pub or_empty : Option Bytes → Bytes
or_empty none = []
or_empty (some s) = s

unfoldable pub link_info : Bytes → Bytes → Bytes → LinkInfo
unfolding or_text
link_info link protocol remark = record {
  remark = or_text remark protocol;
  protocol = protocol;
  raw = link;
}

unfoldable pub parse_config_link : Library → Bytes → LinkInfo
unfolding link_info fragment cut
parse_config_link lib link =
    if has_prefix link vmess_prefix
    then link_info link (codes "vmess")
        (or_empty (decoded_with lib.remark (decode_std (drop (length vmess_prefix) link))))
    else if has_prefix link vless_prefix
    then link_info link (codes "vless") (fragment (cut b'#' link))
    else if has_prefix link trojan_prefix
    then link_info link (codes "trojan") (fragment (cut b'#' link))
    else if has_prefix link ss_prefix
    then link_info link (codes "shadowsocks") (fragment (cut b'#' link))
    else link_info link [] []

pub record RealityParams : Type 0 where
  pub uuid : Bytes
  pub sni : Bytes
  pub pbk : Bytes
  pub sid : Bytes
  pub spx : Bytes
  pub fp : Bytes
  pub flow : Bytes

abbrev pub only_uuid : Bytes → RealityParams
only_uuid uuid = record { uuid = uuid; sni = []; pbk = []; sid = []; spx = []; fp = []; flow = [] }

unfoldable pub vmess_params : Bytes → Option Values → RealityParams
unfolding query_get
vmess_params uuid none = only_uuid uuid
vmess_params uuid (some v) = record {
  uuid = uuid;
  sni = query_get (codes "host") v;
  pbk = [];
  sid = [];
  spx = [];
  fp = query_get (codes "fp") v;
  flow = query_get (codes "flow") v;
}

unfoldable pub query_params : Bytes → Bytes → Option Values → RealityParams
unfolding query_get or_text
query_params uuid host none = only_uuid uuid
query_params uuid host (some q) = record {
  uuid = uuid;
  sni = or_text (query_get (codes "sni") q) (
      or_text (query_get (codes "host") q)
        (if query_get (codes "security") q =ᵇ codes "reality" then host else []));
  pbk = query_get (codes "pbk") q;
  sid = query_get (codes "sid") q;
  spx = query_get (codes "spx") q;
  fp = query_get (codes "fp") q;
  flow = query_get (codes "flow") q;
}

unfoldable pub params_at :
    Library → Bytes → Bytes → Result (Unit {0}) ServerInfo → Result (Unit {0}) RealityParams
unfolding vmess_params query_params
params_at lib link uuid (ok i) = ok (
    if has_prefix link vmess_prefix
    then vmess_params uuid (decoded_with lib.fields (decode_std (drop (length vmess_prefix) link)))
    else query_params uuid i.host (lib.query link))
params_at lib link uuid (err e) = err e
params_at lib link uuid panic = panic

-- The first result of `ParseConfigLink`, the remark, is taken for the UUID.
unfoldable pub extract_reality_params : Library → Bytes → Result (Unit {0}) RealityParams
unfolding params_at
extract_reality_params lib link =
    params_at lib link (parse_config_link lib link).remark (extract_server_info lib link)

abbrev pub settings_of : Library → Option Bytes → Bytes × Bytes
settings_of lib none = ([], [])
settings_of lib (some d) = lib.settings d

unfoldable pub full_at :
    Library → Bytes → ℕ → LinkInfo → Result (Unit {0}) ServerInfo → Result (Unit {0}) SubConfig
full_at lib link backend_id l (ok i) =
    let (settings, stream) =
      if has_prefix link vmess_prefix
      then settings_of lib (decode_std (drop (length vmess_prefix) link))
      else ([], []) in
    ok (record {
      id = 0;
      backend_id = backend_id;
      remark = l.remark;
      host = i.host;
      port = i.port;
      protocol = l.protocol;
      settings = settings;
      stream_settings = stream;
      raw_link = l.raw;
    })
full_at lib link backend_id l (err e) = err e
full_at lib link backend_id l panic = panic

-- `ParseConfigLinkFull`: the row, which has no identifier yet.
unfoldable pub parse_config_link_full : Library → Bytes → ℕ → Result (Unit {0}) SubConfig
unfolding full_at
parse_config_link_full lib link backend_id =
    full_at lib link backend_id (parse_config_link lib link) (extract_server_info lib link)
