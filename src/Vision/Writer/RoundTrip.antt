-- ===== src/Vision/Writer/RoundTrip.antt =====
-- What `VisionWriter` sends is what `VisionReader` reads.
use proxy_balacer.Base.{
  ℕ, suc, ◌+◌, ◌≤◌, ◌<◌, ◌≡◌, refl, sym, ◌∙◌, ap, Bytes, Bool, List, [], ◌∷◌, ◌++◌, map, length,
  take, drop, replicate, All, arith, length-append, length-take, length-replicate, append_assoc,
  take-append-drop, put_be16, true,
}
use proxy_balacer.Io.Reads.{Requests, Positive, deliver}
use proxy_balacer.Vision.Frames.{xtls_padding, vision_max_content, ends_framing}
use proxy_balacer.Vision.Frames.Streams.{
  Frames, bytes_of, contents_of, reads_of, IsFramed, IsStarted,
}
use proxy_balacer.Vision.Reader.{read, new_vision_reader}
use proxy_balacer.Vision.Reader.Delivery.{deliver-contents_of}
use proxy_balacer.Vision.Writer.{new_vision_writer, first_frame}
use proxy_balacer.Vision.Writer.Sends.{
  join, write_all, written, length-split, length-three, written_lem, write_all-sends,
}

padding_fits : (n : ℕ) → xtls_padding n < 65536
unfolding xtls_padding
padding_fits n = ground arith

padding_bound : (n : ℕ) → xtls_padding n < 64
unfolding xtls_padding
padding_bound n = ground arith

pub length-first_frame : (u x : Bytes) → length u ≡ 16 → length (first_frame u x) ≤ length x + 84
unfolding first_frame
length-first_frame u x h = omega (
  arith,
  length-append u (
      0x01 ∷ put_be16 (length x)
      ++ (put_be16 (xtls_padding (length x)) ++ (x ++ replicate (xtls_padding (length x)) 0))),
  length-append x (replicate (xtls_padding (length x)) 0),
  length-replicate {A = ℕ} (xtls_padding (length x)) 0,
  padding_bound (length x),
)

room_lem :
    (u p : Bytes) (ps : List Bytes)
    → length u ≡ 16
    → length (u ++ bytes_of (written p ps)) ≤ length (join (p ∷ ps)) + 84
room_lem u p ps h = rw (← written_lem u p ps) (
    omega (
      arith,
      length-first_frame u (take vision_max_content p) h,
      length-split vision_max_content p,
      length-three (first_frame u (take vision_max_content p)) (drop vision_max_content p)
          (join ps),
      length-append p (join ps),
    ))

pub delivers_lem :
    (u s j : Bytes) (fs : Frames) (rs : Requests)
    → length u ≡ 16
    → IsFramed fs
    → IsStarted fs
    → contents_of fs ≡ j
    → reads_of fs ≡ suc (length j)
    → s ≡ u ++ bytes_of fs
    → All Positive rs
    → length j < length rs
    → (deliver read rs (new_vision_reader s u)).0 ≡ j
delivers_lem u s j fs rs h w st c r e ps k =
    rw e (deliver-contents_of u fs rs h w st ps (omega arith) ∙ c)

pub framed_lem :
    (x : Bytes)
    → length x ≤ 16384
    → (Bool.true ≡ Bool.true)
      × (length x < 65536)
      × (length (replicate {A = ℕ} (xtls_padding (length x)) 0) < 65536)
framed_lem x h = (
  refl,
  omega arith,
  rw (length-replicate {A = ℕ} (xtls_padding (length x)) 0) (padding_fits (length x)),
)

written-IsFramed : (p : Bytes) (ps : List Bytes) → IsFramed (written p ps)
unfolding written IsFramed ends_framing
written-IsFramed p ps =
    framed_lem (take vision_max_content p) (omega (arith, length-take vision_max_content p))

written-IsStarted : (p : Bytes) (ps : List Bytes) → IsStarted (written p ps)
unfolding written IsStarted
written-IsStarted p ps = tt

contents-written : (p : Bytes) (ps : List Bytes) → contents_of (written p ps) ≡ join (p ∷ ps)
unfolding written contents_of
contents-written p ps =
    sym (append_assoc (take vision_max_content p) _ (join ps))
    ∙ ap (λ t. t ++ join ps) (take-append-drop vision_max_content p)

reads-written :
    (p : Bytes) (ps : List Bytes) → reads_of (written p ps) ≡ suc (length (join (p ∷ ps)))
unfolding written reads_of
reads-written p ps =
    let q = length-split vision_max_content p in
    omega (arith, length-append (drop vision_max_content p) (join ps), length-append p (join ps))

-- Whatever slices are written to a new writer whose connection takes them all, every write returns
-- without error the length of its slice, and a new reader with the same UUID on what was sent gives back
-- the bytes of the slices in order, in as many reads as there are bytes and one more, each with room for
-- a byte and a byte arrived.
pub read-write_all :
    (u : Bytes) (room : ℕ) (p : Bytes) (ps : List Bytes) (rs : Requests)
    → length u ≡ 16
    → length (join (p ∷ ps)) + 84 ≤ room
    → All Positive rs
    → length (join (p ∷ ps)) < length rs
    → let (out, w) = write_all (p ∷ ps) (new_vision_writer (record { sent = []; room = room }) u) in
      (out ≡ map (λ q. (length q, true)) (p ∷ ps))
      × ((deliver read rs (new_vision_reader w.writer.sent u)).0 ≡ join (p ∷ ps))
read-write_all u room p ps rs h k l m =
    let (a, b) = write_all-sends u [] room p ps (omega (arith, room_lem u p ps h)) in
    (
      a,
      delivers_lem u _ (join (p ∷ ps)) (written p ps) rs h (written-IsFramed p ps)
          (written-IsStarted p ps) (contents-written p ps) (reads-written p ps) b l m,
    )
