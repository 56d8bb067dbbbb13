-- ===== src/Proxy/Http.antt =====
-- proxy.go: `handleHTTPConnection`.
--
-- The request is what `http.ReadRequest` makes of the input: its path and its host. The panel, with its
-- settings and subscriptions, is there only where it is enabled.
use proxy_balacer.Base.{
  Bytes, List, [], Option, none, some, codes, has_prefix, if◌then◌else◌, Result, ok, panic,
}
use proxy_balacer.Models.{Subscription}
use proxy_balacer.Admin.Subscriptions.Answers.{Config, serve_subscription_http}

unfoldable pub served :
    Option (Config × List Subscription) → Bytes → Bytes → Result (Unit {0}) Bytes
unfolding serve_subscription_http
served none path host = panic
served (some (cfg, rows)) path host = ok (serve_subscription_http cfg rows path host)

-- What is written to the connection; without a panel, a path of a subscription is a nil dereference, which
-- ends the process. The writer of the other answers drops the status and the headers.
unfoldable pub handle_http_connection :
    Option (Config × List Subscription) → Option (Bytes × Bytes) → Result (Unit {0}) Bytes
unfolding served
handle_http_connection panel none = ok []
handle_http_connection panel (some (path, host)) =
    if has_prefix path (codes "/sub/") then served panel path host else ok (codes "Not Found\n")
