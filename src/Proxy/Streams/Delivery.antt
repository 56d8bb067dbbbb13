-- ===== src/Proxy/Streams/Delivery.antt =====
-- What the two ends of a connection receive of each other.
use proxy_balacer.Base.{
  ℕ, ◌+◌, ◌≤◌, ◌<◌, ◌≡◌, refl, sym, ◌∙◌, ap, Bytes, Bool, Bool-cases, false, [], ◌∷◌, ◌++◌, length,
  All, arith, length-append, if◌then◌else◌, inl, inr, subst,
}
use proxy_balacer.Io.{conn_write}
use proxy_balacer.Io.Reads.{Requests, Positive, deliver}
use proxy_balacer.Io.Copy.{Arrivals, copy_lem, conn_sink}
use proxy_balacer.Vision.Frames.Streams.{
  Frames, stop, frame, last, bytes_of, contents_of, reads_of, IsFramed, IsStarted,
}
use proxy_balacer.Vision.Reader
use proxy_balacer.Vision.Reader.{new_vision_reader}
use proxy_balacer.Vision.Reader.Delivery.{reader_source, start}
use proxy_balacer.Vision.Relay.Rounds.{length-frame}
use proxy_balacer.Vision.Relay.Streams.{relay_stream}
use proxy_balacer.Vision.Response
use proxy_balacer.Vision.Response.{new_response_conn}
use proxy_balacer.Vision.Response.Delivery.{response_source, whole}
use proxy_balacer.Vision.Writer
use proxy_balacer.Vision.Writer.{new_vision_writer}
use proxy_balacer.Vision.Writer.Copies.{writer_sink, new-Writing, read-Writing}
use proxy_balacer.Balancer.{Balancer}
use proxy_balacer.Models.{Backend}
use proxy_balacer.Vless.Header.{VlessHeader, write_header}
use proxy_balacer.Vless.Flow.{encode_flow_addon}
use proxy_balacer.Proxy.Session.{World, relayed, serve}
use proxy_balacer.Proxy.Session.Ways.{IsOpen, upstream_of, serve_open, upstream-sent, upstream-room}
use proxy_balacer.Proxy.Upstream.{Upstream, backend_header, has_vision}
use proxy_balacer.Proxy.Streams.{
  client_relay, client_copy, client_to_backend, backend_copy, backend_to_client,
}

pub client_copy_lem :
    (proxy_uuid : Bytes) (u : Upstream) (ms : Arrivals) (fs : Frames)
    → length proxy_uuid ≡ 16
    → IsFramed fs
    → IsStarted fs
    → All (◌≤◌ 1) ms
    → reads_of fs ≤ length ms
    → length (contents_of fs) ≤ u.conn.room
    → let d = client_copy proxy_uuid u ms (proxy_uuid ++ bytes_of fs) in
      (d.count ≡ length (contents_of fs)) × (d.writer.sent ≡ u.conn.sent ++ contents_of fs)
unfolding client_copy
client_copy_lem proxy_uuid u ms fs g f st ps k r =
    let (a, (b, c)) =
      copy_lem Reader.read conn_write conn_sink reader_source ms _ (contents_of fs) (reads_of fs)
        u.conn u.conn.sent u.conn.room (start proxy_uuid fs g f st) (refl, omega arith) ps k r in
    (a, b)

pub client_relay_lem :
    (proxy_uuid : Bytes) (u : Upstream) (fs : Frames)
    → length proxy_uuid ≡ 16
    → length u.uuid ≡ 16
    → IsFramed fs
    → IsStarted fs
    → length (u.uuid ++ bytes_of fs) ≤ u.conn.room
    → let d = client_relay proxy_uuid u (proxy_uuid ++ bytes_of fs) in
      (d.count ≡ length (contents_of fs)) × (d.writer.sent ≡ u.conn.sent ++ (u.uuid ++ bytes_of fs))
unfolding client_relay
client_relay_lem proxy_uuid u fs g h f st r =
    let (a, b, c) = relay_stream u.uuid proxy_uuid u.conn.sent u.conn.room fs g h f st r in (b, a)

contents-bound : (fs : Frames) → length (contents_of fs) ≤ length (bytes_of fs)
unfolding contents_of bytes_of
contents-bound stop = omega arith
contents-bound (frame c x y fs) =
    omega
      (arith, contents-bound fs, length-append x (contents_of fs), length-frame c x y (bytes_of fs))
contents-bound (last c x y raw) = omega (arith, length-append x raw, length-frame c x y raw)

abbrev Towards : Bytes → Upstream → Arrivals → Frames → Bool → Type 0
Towards proxy_uuid u ms fs b =
    let s = proxy_uuid ++ bytes_of fs in
    let d = if b then client_relay proxy_uuid u s else client_copy proxy_uuid u ms s in
    (d.count ≡ length (contents_of fs))
    × (d.writer.sent ≡ u.conn.sent ++ (if b then u.uuid ++ bytes_of fs else contents_of fs))

abbrev Room : Upstream → Frames → Bool → Type 0
Room u fs b = length (if b then u.uuid ++ bytes_of fs else contents_of fs) ≤ u.conn.room

-- What the backend gets after the header.
unfoldable pub towards : Upstream → Frames → Bytes
towards u fs = if u.vision then u.uuid ++ bytes_of fs else contents_of fs

towards-bound :
    (u : Upstream) (fs : Frames) → length (towards u fs) ≤ length (u.uuid ++ bytes_of fs)
unfolding towards
towards-bound u fs = elim (Bool-cases u.vision) [
  | inl e ↦ rw e (omega arith)
  | inr e ↦ rw e (omega (arith, length-append u.uuid (bytes_of fs), contents-bound fs))
]

upstream_fields :
    (wd : World) (be : Backend) (uuid : Bytes) (client : VlessHeader) (fs : Frames)
    → ((upstream_of wd be uuid client).uuid ≡ uuid)
      × (towards (upstream_of wd be uuid client) fs
          ≡ (if has_vision be then uuid ++ bytes_of fs else contents_of fs))
unfolding upstream_of towards
upstream_fields wd be uuid client fs = (refl, refl)

pub client_to_backend_lem :
    (proxy_uuid : Bytes) (u : Upstream) (ms : Arrivals) (fs : Frames)
    → length proxy_uuid ≡ 16
    → length u.uuid ≡ 16
    → IsFramed fs
    → IsStarted fs
    → All (◌≤◌ 1) ms
    → reads_of fs ≤ length ms
    → length (towards u fs) ≤ u.conn.room
    → let d = client_to_backend proxy_uuid u ms (proxy_uuid ++ bytes_of fs) in
      (d.count ≡ length (contents_of fs)) × (d.writer.sent ≡ u.conn.sent ++ towards u fs)
unfolding client_to_backend towards
client_to_backend_lem proxy_uuid u ms fs g h f st ps k r = elim (Bool-cases u.vision) [
  | inl e ↦
      subst (Towards proxy_uuid u ms fs) (sym e)
        (client_relay_lem proxy_uuid u fs g h f st (subst (Room u fs) e r))
  | inr e ↦
      subst (Towards proxy_uuid u ms fs) (sym e)
        (client_copy_lem proxy_uuid u ms fs g f st ps k (subst (Room u fs) e r))
]

-- A response of a backend whose flow is not framed, with at least a byte after its header, an addon of the
-- length that its second byte tells included, is copied to a new connection of a client with the room for
-- it and 84 bytes more, in as many reads as it has bytes, each with a byte arrived: the count is the
-- length of what follows the header, and a reader of the client with the proxy's UUID, of sixteen bytes,
-- gets just that, in any reads with room for a byte and a byte arrived of which there is one more than
-- bytes.
pub backend_to_client-delivers :
    (proxy_uuid : Bytes) (u : Upstream) (v : ℕ) (addon body : Bytes) (ms : Arrivals) (rs : Requests)
    → u.vision ≡ false
    → length proxy_uuid ≡ 16
    → 1 ≤ length body
    → All (◌≤◌ 1) ms
    → length body ≤ length ms
    → All Positive rs
    → length body < length rs
    → let d =
        backend_to_client proxy_uuid u ms
          (v ∷ length addon ∷ addon ++ body)
          (record { sent = []; room = length body + 84 }) in
      (d.count ≡ length body)
      × ((deliver Reader.read rs (new_vision_reader d.writer.sent proxy_uuid)).0 ≡ body)
unfolding backend_to_client backend_copy
backend_to_client-delivers proxy_uuid u v addon body ms rs h g m ps k qs l =
    let (a, b) =
      copy_lem Response.read Writer.write (writer_sink proxy_uuid g) response_source ms _ body
        (length body) _ [] (length body) (whole v addon body) (new-Writing proxy_uuid (length body))
        ps k (omega arith) in
    rw h (a, read-Writing proxy_uuid _ body _ rs g b m qs l)

-- Where the way to a backend is open, and the client's header is followed by a well-formed stream of frames
-- (at least one frame, lengths within 16 bits, and the command that ends the framing, if any, in the last
-- frame) with the proxy's UUID of sixteen bytes, the connection reaches the backend with those frames, and
-- the backend is sent the header, with its own UUID and flow and the client's command, port and address,
-- and then, if its flow is framed, the same frames with its own UUID, and else what they carry; the count is
-- the length of what they carry. The connection has the room for all this, the flow's addon and the
-- client's address have 41 bytes at most together, and the copy has as many reads as the frames ask for,
-- each with a byte arrived.
pub serve-client_to_backend :
    (wd : World) (b : Balancer) (s proxy_uuid : Bytes) (client : VlessHeader) (fs : Frames)
    (be : Backend) (uuid : Bytes) (ms : Arrivals)
    → IsOpen wd b s client (proxy_uuid ++ bytes_of fs) be uuid
    → length proxy_uuid ≡ 16
    → IsFramed fs
    → IsStarted fs
    → length (encode_flow_addon be.flow) + length client.addr ≤ 41
    → All (◌≤◌ 1) ms
    → reads_of fs ≤ length ms
    → length (write_header (backend_header uuid be client)) + length (uuid ++ bytes_of fs)
      ≤ wd.backend_conn.room
    → (u : Upstream) × (serve wd b s ≡ relayed u (proxy_uuid ++ bytes_of fs))
      × ((client_to_backend proxy_uuid u ms (proxy_uuid ++ bytes_of fs)).count
          ≡ length (contents_of fs))
      × ((client_to_backend proxy_uuid u ms (proxy_uuid ++ bytes_of fs)).writer.sent
          ≡ write_header (backend_header uuid be client)
            ++ (if has_vision be then uuid ++ bytes_of fs else contents_of fs))
serve-client_to_backend wd b s proxy_uuid client fs be uuid ms o g f st h ps k r =
    let u = upstream_of wd be uuid client in
    let (a, e) = upstream_fields wd be uuid client fs in
    let (c, d) = client_to_backend_lem proxy_uuid u ms fs g (ap length a ∙ o.uuid_16) f st ps k (
      omega (
        arith,
        towards-bound u fs,
        ap (λ x. length (x ++ bytes_of fs)) a,
        upstream-room wd be uuid client (omega arith),
      )) in
    (
      u,
      serve_open wd b s client (proxy_uuid ++ bytes_of fs) be uuid o h,
      c,
      d
          ∙ ap (λ x. x ++ towards u fs)
              (upstream-sent wd b s client (proxy_uuid ++ bytes_of fs) be uuid o (omega arith))
          ∙ ap (λ x. write_header (backend_header uuid be client) ++ x) e,
    )
