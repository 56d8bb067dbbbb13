-- ===== src/Admin/Subscriptions/Links.antt =====
-- The link that a subscription's address answers with.
use proxy_balacer.Base.{
  ◌^◌, ◌<◌, ◌≡◌, refl, ap, sym, ◌∙◌, Bytes, false, List, [], ◌∷◌, ◌++◌, some, ◌=ᵇ◌, if◌then◌else◌,
  decimal, codes, ok, pos, append_assoc,
}
use proxy_balacer.Models.{Subscription}
use proxy_balacer.Links.{Library, Values, extract_server_info, query_sni}
use proxy_balacer.Links.Server.{Without, vless_link, extract-vless_link}
use proxy_balacer.Admin.Subscriptions.Answers.{
  Config, find_subscription, token_in, client_link, answer, subscription_endpoint,
}

-- The user of the link: the UUID of the proxy, or the one that stands in its place.
unfoldable pub user_of : Config → Bytes
user_of cfg =
    if cfg.proxy_uuid =ᵇ [] then codes "a1b2c3d4-e5f6-7890-abcd-ef1234567890" else cfg.proxy_uuid

abbrev query_of : Bytes → Bytes
query_of host =
    codes "encryption=none&security=tls&sni=" ++ (host ++ codes "&type=ws&path=/vless-ws#Balancer")

client_link-vless :
    (cfg : Config) (host : Bytes)
    → client_link cfg host ≡ vless_link (user_of cfg) host cfg.listen_port (query_of host)
unfolding client_link vless_link user_of
client_link-vless cfg host =
    ap (λ s. codes "vless://" ++ (user_of cfg ++ (b'@' ∷ s)))
      (sym (append_assoc host (b':' ∷ decimal cfg.listen_port) (b'?' ∷ query_of host)))

endpoint-public :
    (cfg : Config) (rows : List Subscription) (path request_host : Bytes) (s : Subscription)
    → (cfg.public_host =ᵇ []) ≡ false
    → find_subscription (token_in path (codes ".txt")) rows ≡ some s
    → subscription_endpoint cfg rows path request_host ≡ some (client_link cfg cfg.public_host)
unfolding subscription_endpoint answer
endpoint-public cfg rows path request_host s h e = rw (h, e) refl

-- With a public host, without `:` and `?`, and a UUID without `@`, the address of a subscription that is
-- enabled answers with a link from which the panel itself would read the public host and the port that the
-- proxy listens on, where the library parses the link.
pub extract-subscription_endpoint :
    (cfg : Config) (rows : List Subscription) (path request_host : Bytes) (s : Subscription)
    (lib : Library) (q : Values)
    → (cfg.public_host =ᵇ []) ≡ false
    → Without b'@' (user_of cfg)
    → Without b'?' cfg.public_host
    → Without b':' cfg.public_host
    → cfg.listen_port < 2 ^ 63
    → find_subscription (token_in path (codes ".txt")) rows ≡ some s
    → lib.query (client_link cfg cfg.public_host) ≡ some q
    → (link : Bytes) × (subscription_endpoint cfg rows path request_host ≡ some link)
      × (extract_server_info lib link
          ≡ ok (record {
            host = cfg.public_host;
            port = pos cfg.listen_port;
            sni = query_sni cfg.public_host q;
          }))
extract-subscription_endpoint cfg rows path request_host s lib q h u a b p e k =
    let v = client_link-vless cfg cfg.public_host in
    (
      client_link cfg cfg.public_host,
      endpoint-public cfg rows path request_host s h e,
      ap (extract_server_info lib) v
          ∙ extract-vless_link lib (user_of cfg) cfg.public_host (query_of cfg.public_host)
              cfg.listen_port q u a b p (ap lib.query (sym v) ∙ k),
    )
