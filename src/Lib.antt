-- ===== src/Lib.antt =====
-- proxy-balancer: a TCP proxy in front of several 3x-ui servers, with health checks, failover and an
-- admin panel. This library models the program's own logic and proves what makes it correct.
--
-- The parts and how they interact. The balancer (balancer.go) holds the list of backends, the health
-- checker (health.go) and the metrics (metrics.go). The health checker's probes, the observatory and
-- the checks of the subscriptions mark addresses as up or down; the balancer then chooses the active
-- backend among those that are up, unless one was chosen by hand, and rewrites the routing rules of
-- Xray's configuration for it. Connections carry VLESS headers (vless.go) in TLS, which the proxy
-- (proxy.go) terminates; it reads one, writes one with the UUID of the active backend, and relays the
-- streams, which the Vision code (vision.go) frames, unframes or restamps, over a connection that the
-- dialer (reality.go) makes. The admin panel (admin.go) lets requests through to its handlers
-- by a session and, for a POST, by a token; they change the tables (models.go), for new backends by the
-- links of a subscription (subscription_fetch.go), and reload the balancer. The configuration (config.go)
-- gives the first backends (main.go).
--
-- Which file models what:
--   Base: lists, byte strings, maps, results, decimal numbers and 16-bit words.
--   Base64: the text that is cut and decoded with Go's packages.
--   Io: connections, read with `io.ReadFull`, `binary.Read` or one `Read`, and written; Io/Reads has what
--   any source of bytes delivers in a sequence of reads, and Io/Copy is `io.Copy`.
--   Vless/Header: vless.go, `ReadVLESSHeader` (`read_header`) and `WriteVLESSHeader` (`write_header`).
--   Vless/Uuid: vless.go, `ParseUUID` (`parse_uuid`) and `UUIDToString` (`uuid_to_string`).
--   Vless/Flow: vless.go, `encodeFlowAddon` (`encode_flow_addon`).
--   Tls: tls.go, `extractSNI` (`extract_sni`), an index out of range being a panic.
--   Metrics: metrics.go, the calls that record something, and `ConnsPerMinute`.
--   Health: health.go, `BestUp` (`best_up`), the maps, and one address of a round of `Start` (`probe`).
--   Json: the decoded JSON of `encoding/json`.
--   Xray: balancer.go, `findOutboundTag` and what `syncXrayLocked` does to the configuration.
--   Models, Database: models.go, the rows with `Addr`, and the tables with what gorm does to them.
--   Balancer: balancer.go, the other methods, each as a function on the balancer's state; Balancer/Events
--   joins them with the probes to a system driven by events.
--   Vision/Reader, Vision/Writer, Vision/Relay: vision.go, `VisionReader`, `VisionWriter` and `VisionRelay`;
--   Vision/Frames has the header of a frame, and Vision/Response is `vlessResponseConn`.
--   Proxy: proxy.go, `handleRawConnection`; Proxy/Prepend is `PrependConn`, Proxy/Session is
--   `handleTLSConnection`, Proxy/Upstream is `proxyToBackend` up to its goroutines, Proxy/Dump the header
--   that it logs, Proxy/Streams the two directions that follow, and Proxy/Http `handleHTTPConnection`.
--   Reality: reality.go; Reality/Keys is `base64ToBytes` and the short identifier, Reality/Dial is
--   `DialReality` and `ProxyToBackend`, and Reality/FlushWriter is `FlushWriter`.
--   Admin/Csrf, Admin/Sessions, Admin/Router: admin.go, from `generateCSRF` to `cleanupCSRF`; the sessions
--   with `handleLogin` and `handleLogout`; `router` and `extractID`.
--   Admin/Backends, Admin/Subscriptions: admin.go, from `addBackend` to `setActiveServer`; the handlers of
--   clients and subscriptions, `filterActiveConfigs` and the answers of a subscription. Admin/Serve is
--   `router` with these handlers, `renderContent`, `handleLoginPage` and the effects of login and logout.
--   Links: subscription_fetch.go, `extractServerInfo` and `ParseBackendFromSubscription`; Links/Params has
--   `ParseConfigLink`, `extractRealityParams` and `ParseConfigLinkFull`, Links/Fetch
--   `FetchSubscriptionURL`, and Links/Rewrite is `rewriteRawLink` and `GenerateSubscription` of
--   subscription.go.
--   Setup: config.go, and Setup/Seed is `seedBackendsFromConfig` of main.go.
--   Observatory: observatory.go, the pattern of the log lines, `loadTagMap`, `scanLog` and `readNewLines`.
--   Tests: runs on concrete inputs, and the theorems at concrete inputs.
--
-- How code becomes definitions. A string or byte slice is the list of its bytes. A method is a function
-- from the state to the new state, with what it asks the world (the time, the outcome of a dial or of a
-- fetch, whether a file can be written, the rows of a query) as arguments. A call that can fail returns
-- a `Result`: a value, an error value, or a panic. Counters are 64-bit patterns. A method that holds
-- the mutex once is one step; `Balancer.Events.run` interleaves such steps in any order. `checkSubscriptions`
-- and a round of the ticker of `Start` take the mutex several times: they are the sequence of their steps,
-- with none of another goroutine in between, and their parts are events of their own besides.
--
-- Bounds and fuel. The loop over TLS extensions has one round for each byte of the input and one more,
-- where each round moves on by four bytes at least; the digits of a number have as many rounds as its
-- value plus one. The relay has a round for each byte of its input and one more, where a round reads
-- five bytes at least. A copy is seen for a given number of reads. All other loops recur on a list.
-- `sort.Slice` is the insertion sort that it is on up to twelve elements; on longer lists the order among
-- equal pings is not that of Go, and what is stated for them holds in any such order. `strings.ToLower` knows
-- the letters with a lower case in ASCII, which is all that its comparisons can see.
--
-- Not modelled: the sockets themselves, the TLS and REALITY handshakes, gorm and SQLite, whose conditions
-- are a parameter, `encoding/json` and `net/url` on links, which are parameters too, YAML, the HTML
-- templates with the pages that they fill, the QR image, the log, and the start and end of the process in
-- main.go. The links that subscription.go makes for rows without one of their own, and xui.go, which nothing
-- calls, and testprobe, a tool of its own, stand outside.
pub mod Base
pub mod Io
pub mod Base64
pub mod Vless
pub mod Tls
pub mod Metrics
pub mod Health
pub mod Json
pub mod Xray
pub mod Models
pub mod Balancer
pub mod Vision
pub mod Proxy
pub mod Admin
pub mod Observatory
pub mod Reality
pub mod Links
pub mod Database
pub mod Setup
mod Tests
