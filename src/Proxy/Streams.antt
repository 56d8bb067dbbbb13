-- ===== src/Proxy/Streams.antt =====
-- proxy.go: the two directions of `proxyToBackend` once the header is sent.
--
-- Where the backend's flow is framed, `VisionRelay` carries the frames over, each way with the other UUID.
-- Else the client's frames are taken off by `VisionReader`, and the response is framed by `VisionWriter`;
-- the copies are seen for a list of arrivals. Each direction is its own goroutine, on its own connection.
pub mod Delivery
use proxy_balacer.Base.{ℕ, Bytes, Option, if◌then◌else◌}
use proxy_balacer.Io.{Conn, conn_write}
use proxy_balacer.Io.Copy.{Arrivals, copy}
use proxy_balacer.Vision.Reader
use proxy_balacer.Vision.Reader.{new_vision_reader}
use proxy_balacer.Vision.Response
use proxy_balacer.Vision.Response.{new_response_conn, once}
use proxy_balacer.Vision.Writer
use proxy_balacer.Vision.Writer.{new_vision_writer}
use proxy_balacer.Vision.Relay.{relay}
use proxy_balacer.Proxy.Upstream.{Upstream}

-- How a direction ends: the count of the bytes and the connection written to.
pub record Direction : Type 0 where
  pub count : ℕ
  pub writer : Conn

unfoldable pub client_relay : Bytes → Upstream → Bytes → Direction
client_relay proxy_uuid u s =
    let r = relay u.uuid s u.conn in record { count = r.total; writer = r.writer }

unfoldable pub client_copy : Bytes → Upstream → Arrivals → Bytes → Direction
client_copy proxy_uuid u ms s =
    let ((n, v), c) = copy Reader.read conn_write ms (new_vision_reader s proxy_uuid) u.conn in
    record { count = n; writer = c }

-- From the client, whose bytes after its header are `s`, to the backend.
unfoldable pub client_to_backend : Bytes → Upstream → Arrivals → Bytes → Direction
unfolding client_relay client_copy
client_to_backend proxy_uuid u ms s =
    if u.vision then client_relay proxy_uuid u s else client_copy proxy_uuid u ms s

-- The first read of the relay takes the header of the response off.
unfoldable pub backend_relay : Bytes → Bytes → Conn → Direction
backend_relay proxy_uuid s c =
    let r = relay proxy_uuid (once (new_response_conn s)).conn c in
    record { count = r.total; writer = r.writer }

unfoldable pub backend_copy : Bytes → Arrivals → Bytes → Conn → Direction
backend_copy proxy_uuid ms s c =
    let ((n, v), w) =
      copy Response.read Writer.write ms (new_response_conn s) (new_vision_writer c proxy_uuid) in
    record { count = n; writer = w.writer }

-- From the backend, which answers with `s`, to the client.
unfoldable pub backend_to_client : Bytes → Upstream → Arrivals → Bytes → Conn → Direction
unfolding backend_relay backend_copy
backend_to_client proxy_uuid u ms s c =
    if u.vision then backend_relay proxy_uuid s c else backend_copy proxy_uuid ms s c
