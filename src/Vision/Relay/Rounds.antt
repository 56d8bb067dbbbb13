-- ===== src/Vision/Relay/Rounds.antt =====
-- What a round of `VisionRelay` does with a frame.
use proxy_balacer.Base.{
  ℕ, suc, ◌+◌, ◌-◌, ◌≤◌, ◌<◌, ◌≡◌, refl, sym, ◌∙◌, ap, Bytes, [], ◌∷◌, ◌++◌, length, arith,
  length-append, append_assoc, append-nil, true, false, some, none, ok, Option, if◌then◌else◌,
}
use proxy_balacer.Io.{eof, Conn, read_full, read_full-append}
use proxy_balacer.Vision.Frames.{ends_framing}
use proxy_balacer.Vision.Frames.Streams.{Frames, stop, frame, last, head_bytes}
use proxy_balacer.Vision.Reader.Framed.{read_5, read_21, drop_16, decode-head_bytes}
use proxy_balacer.Io.Copy.{write_fits}
use proxy_balacer.Vision.Relay.{
  Relayed, RelayError, relay_loop, relay_frame, relay_head, relay_payload, send_frame, copy_raw,
  set_uuid, head_of, header_size, fail, header,
}

-- How a relay ends: an input that stops within the framing, between two frames, ends in an error.
unfoldable pub ending : Frames → Option RelayError
ending stop = some (header eof)
ending (frame c x y fs) = ending fs
ending (last c x y raw) = none

abbrev pub Passed : Relayed → ℕ → Option RelayError → Bytes → Type 0
Passed r total e sent = (r.total ≡ total) × (r.error ≡ e) × (r.writer.sent ≡ sent)

pub copy_lem :
    (total : ℕ) (s : Bytes) (w : Conn)
    → length s ≤ w.room
    → Passed (copy_raw total s w) (total + length s) none (w.sent ++ s)
unfolding copy_raw
copy_lem total [] w h = (omega arith, refl, sym (append-nil w.sent))
copy_lem total (b ∷ s) w h = rw (write_fits (b ∷ s) w h) (refl, refl, refl)

module _ (dst : Bytes) (again : ℕ → Bytes → Conn → Relayed) where
  -- A frame that arrives and goes out whole.
  pub payload_lem :
      (c : ℕ) (x y head rest : Bytes) (total : ℕ) (w : Conn)
      → length (head ++ (x ++ y)) ≤ w.room
      → relay_head dst again
          (some (record { command = c; content_len = length x; padding_len = length y }))
          head
          total
          (x ++ (y ++ rest))
          w
        ≡ (let w1 : Conn = record {
          sent = w.sent ++ (head ++ (x ++ y));
          room = w.room - length (head ++ (x ++ y));
        } in
            if ends_framing c
            then copy_raw (total + length x) rest w1
            else again (total + length x) rest w1)
  unfolding relay_head relay_payload send_frame
  payload_lem c x y head rest total w h =
      let e : read_full (length x + length y) (x ++ (y ++ rest)) ≡ ok (x ++ y, rest) =
        ap (λ k. read_full k (x ++ (y ++ rest))) (sym (length-append x y))
        ∙ ap (read_full (length (x ++ y))) (sym (append_assoc x y rest))
        ∙ read_full-append (x ++ y) rest in
      rw (e, write_fits (head ++ (x ++ y)) w h) refl

  pub next_lem :
      (c : ℕ) (x y rest : Bytes) (total : ℕ) (w : Conn)
      → length x < 65536
      → length y < 65536
      → relay_frame dst again false total w (read_full 5 (head_bytes c x y ++ (x ++ (y ++ rest))))
        ≡ relay_head dst again
            (some (record { command = c; content_len = length x; padding_len = length y }))
            (head_bytes c x y)
            total
            (x ++ (y ++ rest))
            w
  unfolding relay_frame head_of set_uuid
  next_lem c x y rest total w h k =
      rw (read_5 c x y (x ++ (y ++ rest)), decode-head_bytes c x y h k) refl

  pub first_lem :
      (u : Bytes) (c : ℕ) (x y rest : Bytes) (total : ℕ) (w : Conn)
      → length u ≡ 16
      → length x < 65536
      → length y < 65536
      → relay_frame dst again true total w
          (read_full 21 (u ++ (head_bytes c x y ++ (x ++ (y ++ rest)))))
        ≡ relay_head dst again
            (some (record { command = c; content_len = length x; padding_len = length y }))
            (dst ++ head_bytes c x y)
            total
            (x ++ (y ++ rest))
            w
  unfolding relay_frame head_of set_uuid
  first_lem u c x y rest total w g h k =
      rw
        (
          read_21 u c x y (x ++ (y ++ rest)) g,
          drop_16 u (head_bytes c x y) g,
          decode-head_bytes c x y h k,
        )
        refl

-- The connection after a frame with the header `head`.
abbrev pub after : Bytes → Bytes → Bytes → Conn → Conn
after head x y w = record {
  sent = w.sent ++ (head ++ (x ++ y));
  room = w.room - length (head ++ (x ++ y));
}

pub Passed-cong :
    (r : Relayed) (total total2 : ℕ) (e : Option RelayError) (sent sent2 : Bytes)
    → Passed r total2 e sent2
    → total2 ≡ total
    → sent2 ≡ sent
    → Passed r total e sent
Passed-cong r total total2 e sent sent2 (a, b, c) d f = (a ∙ d, b, c ∙ f)

pub length-frame :
    (c : ℕ) (x y s : Bytes)
    → length (head_bytes c x y ++ (x ++ (y ++ s))) ≡ 5 + length x + length y + length s
unfolding head_bytes
length-frame c x y s = omega (arith, length-append x (y ++ s), length-append y s)

pub regroup : (w h x y s : Bytes) → (w ++ (h ++ (x ++ y))) ++ s ≡ w ++ (h ++ (x ++ (y ++ s)))
regroup w h x y s = simp append_assoc refl

pub loop_stop :
    (fuel : ℕ) (dst : Bytes) (total : ℕ) (w : Conn)
    → Passed (relay_loop (suc fuel) dst false total [] w) total (some (header eof)) w.sent
unfolding relay_loop relay_frame header_size read_full fail
loop_stop fuel dst total w = (refl, refl, refl)

pub length-sent : (h x y : Bytes) → length (h ++ (x ++ y)) ≡ length h + length x + length y
length-sent h x y = omega (arith, length-append h (x ++ y), length-append x y)

module _ (dst : Bytes) (again : ℕ → Bytes → Conn → Relayed) where
  pub frame_on :
      (c : ℕ) (x y head rest : Bytes) (total : ℕ) (w : Conn)
      → length (head ++ (x ++ y)) ≤ w.room
      → ends_framing c ≡ false
      → relay_head dst again
          (some (record { command = c; content_len = length x; padding_len = length y }))
          head
          total
          (x ++ (y ++ rest))
          w
        ≡ again (total + length x) rest (after head x y w)
  frame_on c x y head rest total w h g = payload_lem dst again c x y head rest total w h ∙ rw g refl

  pub frame_end :
      (c : ℕ) (x y head rest : Bytes) (total : ℕ) (w : Conn)
      → length (head ++ (x ++ y)) ≤ w.room
      → ends_framing c ≡ true
      → relay_head dst again
          (some (record { command = c; content_len = length x; padding_len = length y }))
          head
          total
          (x ++ (y ++ rest))
          w
        ≡ copy_raw (total + length x) rest (after head x y w)
  frame_end c x y head rest total w h g =
      payload_lem dst again c x y head rest total w h ∙ rw g refl

-- The rest of a stream that has been copied after its last frame.
pub copied :
    (x y head rest : Bytes) (total : ℕ) (w : Conn)
    → length head + length x + length y + length rest ≤ w.room
    → Passed
        (copy_raw (total + length x) rest (after head x y w))
        (total + length (x ++ rest))
        none
        (w.sent ++ (head ++ (x ++ (y ++ rest))))
copied x y head rest total w k =
    Passed-cong (copy_raw (total + length x) rest (after head x y w)) _ _ _ _ _
      (copy_lem (total + length x) rest (after head x y w) (omega (arith, length-sent head x y)))
      (omega (arith, length-append x rest)) (regroup w.sent head x y rest)

pub loop_unfold :
    (fuel : ℕ) (dst : Bytes) (total : ℕ) (s : Bytes) (w : Conn)
    → relay_loop (suc fuel) dst false total s w
      ≡ relay_frame dst (relay_loop fuel dst false) false total w (read_full 5 s)
unfolding relay_loop header_size
loop_unfold fuel dst total s w = refl
