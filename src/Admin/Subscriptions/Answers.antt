-- ===== src/Admin/Subscriptions/Answers.antt =====
-- admin.go: what the address of a subscription answers.
use proxy_balacer.Base.{
  ℕ, Bytes, not, ◌&&◌, List, [], ◌∷◌, ◌++◌, Option, none, some, ◌=ᵇ◌, length, if◌then◌else◌,
  decimal, codes,
}
use proxy_balacer.Models.{Subscription}
use proxy_balacer.Database.{first_where}
use proxy_balacer.Admin.Router.{trim_prefix, trim_suffix}
use proxy_balacer.Links.{before}

-- The settings that the answers look at.
pub record Config : Type 0 where
  pub public_host : Bytes
  pub listen_addr : Bytes
  pub listen_port : ℕ
  pub proxy_uuid : Bytes

unfoldable pub find_subscription : Bytes → List Subscription → Option Subscription
unfolding first_where
find_subscription token rows = first_where (λ s. (s.token =ᵇ token) && s.enabled) rows

unfoldable pub token_in : Bytes → Bytes → Bytes
unfolding trim_prefix trim_suffix
token_in path suffix = trim_suffix (trim_prefix path (codes "/sub/")) suffix

-- The host before its first `:`, unless it starts with one.
unfoldable pub host_name : Bytes → Bytes
unfolding before
host_name host = if before b':' host =ᵇ [] then host else before b':' host

unfoldable pub client_link : Config → Bytes → Bytes
client_link cfg host =
    let uuid =
      if cfg.proxy_uuid =ᵇ []
      then codes "a1b2c3d4-e5f6-7890-abcd-ef1234567890"
      else cfg.proxy_uuid in
    codes "vless://"
    ++ (uuid
        ++ (b'@'
            ∷ (host
                ++ (b':'
                    ∷ (decimal cfg.listen_port
                        ++ (codes "?encryption=none&security=tls&sni="
                            ++ (host ++ codes "&type=ws&path=/vless-ws#Balancer")))))))

unfoldable pub answer : Config → Bytes → Option Subscription → Option Bytes
unfolding client_link
answer cfg host none = none
answer cfg host (some s) = some (client_link cfg host)

-- The body of `subscriptionEndpoint`, or nothing for an answer of 404.
unfoldable pub subscription_endpoint : Config → List Subscription → Bytes → Bytes → Option Bytes
unfolding answer find_subscription token_in host_name
subscription_endpoint cfg rows path request_host =
    let host =
      if not (cfg.public_host =ᵇ [])
      then cfg.public_host
      else if cfg.listen_addr =ᵇ codes "0.0.0.0"
      then host_name request_host
      else cfg.listen_addr in
    answer cfg host (find_subscription (token_in path (codes ".txt")) rows)

unfoldable pub http_answer : Option Bytes → Bytes
http_answer none = codes "HTTP/1.1 404 Not Found\r\nContent-Length: 0\r\n\r\n"
http_answer (some link) =
    codes
      "HTTP/1.1 200 OK\r\nContent-Type: text/plain; charset=utf-8\r\nCache-Control: no-store, must-revalidate\r\nContent-Length: "
    ++ (decimal (length link)
        ++ (codes "\r\nSubscription-Userinfo: upload=0; download=0; total=0; expire=0\r\n\r\n"
            ++ link))

-- What `ServeSubscriptionHTTP` writes to the connection.
unfoldable pub serve_subscription_http : Config → List Subscription → Bytes → Bytes → Bytes
unfolding http_answer answer find_subscription token_in host_name
serve_subscription_http cfg rows path request_host =
    let host = if cfg.public_host =ᵇ [] then host_name request_host else cfg.public_host in
    http_answer (answer cfg host (find_subscription (token_in path (codes ".txt")) rows))

-- The address in the code of `subscriptionQR`, or nothing for an answer of 404.
unfoldable pub qr_address : Config → List Subscription → Bytes → Bytes → Option Bytes
unfolding find_subscription token_in
qr_address cfg rows path request_host =
    let token = trim_suffix (token_in path (codes "/qr")) (codes ".png") in
    elim (find_subscription token rows) [
      | none ↦ none
      | some s ↦ some (
          if cfg.public_host =ᵇ []
          then codes "http://" ++ (request_host ++ (codes "/sub/" ++ token))
          else codes "https://" ++ (cfg.public_host ++ (codes "/sub/" ++ token)))
    ]
