-- ===== src/Tests/Streams.antt =====
-- The two directions of a connection on concrete streams, and the writer of the header.
use proxy_balacer.Vision.Relay.{relay, out_of_fuel}
use proxy_balacer.Vision.Relay.Ends.{relay_ends}
use proxy_balacer.Base.{
  min, take, drop, put_be16, ◌%◌, true, ◌≢◌, ℕ, zero, suc, All, ◌≤◌, ◌+◌, Bytes, codes, [], ◌∷◌,
  ◌++◌, replicate, ok, ◌≡◌, refl, arith, length, ◌=ᵇ◌, if◌then◌else◌, Bool, some,
}
use proxy_balacer.Io.{read_full, read_byte, read_u16}
use proxy_balacer.Reality.Keys.{base64_to_bytes, short_id}
use proxy_balacer.Reality.Dial.{config_of}
use proxy_balacer.Reality.Dial.Extension.{dial_reality-extension}
use proxy_balacer.Vision.Writer.{new_vision_writer, write}
use proxy_balacer.Vision.Writer.Bounds.{framed, write-bounds}
use proxy_balacer.Io.{Conn, conn_write}
use proxy_balacer.Reality.FlushWriter.{new_flush_writer, flush}
use proxy_balacer.Reality.FlushWriter.Refinement.{write_all, flush-write_all}
use proxy_balacer.Io.Reads.{deliver}
use proxy_balacer.Vision.Frames.{ends_framing}
use proxy_balacer.Vision.Frames.Streams.{
  Frames, last, bytes_of, contents_of, reads_of, head_bytes, IsFramed, IsStarted,
}
use proxy_balacer.Vision.Reader
use proxy_balacer.Vision.Reader.{new_vision_reader}
use proxy_balacer.Vless.Header.{read_header, write_header}
use proxy_balacer.Proxy.Upstream.{Upstream, backend_header, has_vision}
use proxy_balacer.Proxy.Session.{relayed, serve}
use proxy_balacer.Proxy.Session.Ways.{IsOpen}
use proxy_balacer.Proxy.Streams.{client_to_backend, backend_to_client}
use proxy_balacer.Proxy.Streams.Delivery.{serve-client_to_backend, backend_to_client-delivers}
use proxy_balacer.Tests.Proxy.{
  sevens, vision_backend, balancer, world, to_name, short_name, some_preset, parsed, dialed, found,
  addon_18, short_fits, positive, bytes_lem, all_bytes,
}

abbrev nines : Bytes
nines = replicate 16 9

abbrev one_frame : Frames
one_frame = last 1 (codes "hi") (0 ∷ []) (codes "yo")

abbrev stream_bytes : Bytes
stream_bytes = replicate 16 9 ++ (1 ∷ 0 ∷ 2 ∷ 0 ∷ 1 ∷ codes "hi" ++ (0 ∷ codes "yo"))

stream_lem : stream_bytes ≡ nines ++ bytes_of one_frame
unfolding bytes_of head_bytes
stream_lem = refl

abbrev sent_bytes : Bytes
sent_bytes =
    0 ∷ (replicate 16 9 ++ (0 ∷ 1 ∷ 1 ∷ 187 ∷ 2 ∷ length short_name ∷ short_name ++ stream_bytes))

sent_read : read_header sent_bytes ≡ ok (to_name short_name, nines ++ bytes_of one_frame)
unfolding read_header read_full read_byte read_u16 bytes_of head_bytes
sent_read = refl

streams-IsOpen :
    IsOpen world balancer sent_bytes
      (to_name short_name)
      (nines ++ bytes_of one_frame)
      vision_backend
      sevens
unfolding ◌=ᵇ◌ all_bytes
streams-IsOpen = record {
  has_tls = refl;
  handshake_ok = refl;
  preset = some_preset;
  dialed = dialed;
  new_conn = refl;
  no_target = refl;
  client_bytes = bytes_lem sent_bytes refl;
  client_header = sent_read;
  has_active = refl;
  active_backend = found;
  has_uuid = refl;
  parsed = parsed;
  uuid_16 = refl;
}

one-IsFramed : IsFramed one_frame
unfolding IsFramed ends_framing
one-IsFramed = (refl, omega arith, omega arith)

one-IsStarted : IsStarted one_frame
unfolding IsStarted
one-IsStarted = tt

ones : (n : ℕ) → All (◌≤◌ 1) (replicate n 1)
ones zero = tt
ones (suc n) = (omega arith, ones n)

reads_lem : reads_of one_frame ≤ 5
unfolding reads_of
reads_lem = omega arith

room_lem :
    length (write_header (backend_header sevens vision_backend (to_name short_name)))
      + length (sevens ++ bytes_of one_frame)
    ≤ 2000
unfolding bytes_of head_bytes
room_lem = omega (arith, short_fits)

serve-client_to_backend_example :
    (u : Upstream) × (serve world balancer sent_bytes ≡ relayed u (nines ++ bytes_of one_frame))
    × ((client_to_backend nines u (replicate 5 1) (nines ++ bytes_of one_frame)).count
        ≡ length (contents_of one_frame))
    × ((client_to_backend nines u (replicate 5 1) (nines ++ bytes_of one_frame)).writer.sent
        ≡ write_header (backend_header sevens vision_backend (to_name short_name))
          ++ (if has_vision vision_backend
              then sevens ++ bytes_of one_frame
              else contents_of one_frame))
serve-client_to_backend_example =
    serve-client_to_backend world balancer sent_bytes nines (to_name short_name) one_frame
      vision_backend sevens (replicate 5 1) streams-IsOpen refl one-IsFramed one-IsStarted
      (omega (arith, addon_18)) (ones 5) reads_lem room_lem

abbrev plain_upstream : Upstream
plain_upstream = record {
  uuid = sevens;
  conn = record { sent = []; room = 0 };
  vision = Bool.false;
}

backend_to_client-delivers_example :
    let d =
      backend_to_client nines plain_upstream
        (replicate 2 1)
        (0 ∷ 0 ∷ codes "ok")
        (record { sent = []; room = 86 }) in
    (d.count ≡ 2)
    × ((deliver Reader.read (replicate 3 (4, 4)) (new_vision_reader d.writer.sent nines)).0
        ≡ codes "ok")
backend_to_client-delivers_example =
    backend_to_client-delivers nines plain_upstream 0 [] (codes "ok") (replicate 2 1)
      (replicate 3 (4, 4)) refl refl (omega arith) (ones 2) (omega arith) (positive 3) (omega arith)

abbrev empty_conn : Conn
empty_conn = record { sent = []; room = 9 }

flush-write_all_example :
    let (outs, fw) = write_all (codes "ab" ∷ codes "c" ∷ []) (new_flush_writer empty_conn) in
    (outs ≡ (2, true) ∷ (1, true) ∷ [])
    × (fw.w ≡ empty_conn)
    × (flush fw ≡ (
      (conn_write (codes "abc") empty_conn).0.1,
      new_flush_writer (conn_write (codes "abc") empty_conn).1,
    ))
flush-write_all_example = flush-write_all (codes "ab" ∷ codes "c" ∷ []) empty_conn

relay_ends_example : (relay sevens (1 ∷ 2 ∷ []) empty_conn).error ≢ some out_of_fuel
relay_ends_example = relay_ends sevens (1 ∷ 2 ∷ []) empty_conn

dial_reality-extension_example :
    (key : Bytes) × (base64_to_bytes vision_backend.reality_pub_key ≡ some key)
    × (length key ≡ 32)
    × (take 8 some_preset.extension ≡ short_id [])
    × (drop 8 some_preset.extension ≡ key ++ (put_be16 0 ++ []))
unfolding config_of
dial_reality-extension_example =
    dial_reality-extension world.dialer (config_of vision_backend) some_preset dialed

write-bounds_example :
    let out = write (codes "hello") (new_vision_writer (record { sent = []; room = 100 }) sevens) in
    (content : Bytes) × (padding : Bytes) × (rest : Bytes) × (out.0
      ≡ (length (codes "hello"), true))
    × (out.1.writer.sent ≡ [] ++ (framed sevens content padding ++ rest))
    × (codes "hello" ≡ content ++ rest)
    × (length content ≡ min (length (codes "hello")) 16384)
    × ((length content + length padding) % 64 ≡ 0)
    × (length content + length padding ≤ 16384)
    × (length padding ≤ 63)
write-bounds_example = write-bounds sevens [] (codes "hello") 100 (omega arith)
