-- ===== src/Vision/Relay/Streams.antt =====
-- What `VisionRelay` does to a stream of frames.
use proxy_balacer.Base.{
  ℕ, zero, suc, ◌+◌, ◌≤◌, ◌<◌, ◌≡◌, refl, sym, ◌∙◌, Bytes, [], ◌++◌, length, arith, length-append,
  append_assoc, append-nil, true, false,
}
use proxy_balacer.Io.{Conn, read_full}
use proxy_balacer.Vision.Frames.Streams.{
  Frames, stop, frame, last, bytes_of, contents_of, IsFramed, IsStarted, head_bytes,
}
use proxy_balacer.Vision.Reader.Framed.{length-head_bytes}
use proxy_balacer.Vision.Relay.{Relayed, relay, relay_loop, relay_frame, header_size}
use proxy_balacer.Vision.Relay.Rounds.{
  ending, Passed, after, next_lem, first_lem, Passed-cong, length-frame, regroup, loop_stop,
  length-sent, frame_on, frame_end, copied, loop_unfold,
}

-- The outcome of the frames after the content `x`, put after what has gone out with the header `head`.
going_on :
    (r : Relayed) (x y head : Bytes) (fs : Frames) (total : ℕ) (w : Conn)
    → Passed r
        (total + length x + length (contents_of fs))
        (ending fs)
        ((after head x y w).sent ++ bytes_of fs)
    → Passed r
        (total + length (x ++ contents_of fs))
        (ending fs)
        (w.sent ++ (head ++ (x ++ (y ++ bytes_of fs))))
going_on r x y head fs total w h =
    Passed-cong r _ _ _ _ _ h (omega (arith, length-append x (contents_of fs)))
      (regroup w.sent head x y (bytes_of fs))

loop_lem :
    (fuel : ℕ) (dst : Bytes) (fs : Frames) (total : ℕ) (w : Conn)
    → IsFramed fs
    → length (bytes_of fs) < fuel
    → length (bytes_of fs) ≤ w.room
    → Passed
        (relay_loop fuel dst false total (bytes_of fs) w)
        (total + length (contents_of fs))
        (ending fs)
        (w.sent ++ bytes_of fs)
unfolding IsFramed bytes_of contents_of ending
loop_lem zero dst fs total w f h k = absurd (omega arith)
loop_lem (suc fuel) dst stop total w f h k =
    Passed-cong (relay_loop (suc fuel) dst false total [] w) _ _ _ _ _ (loop_stop fuel dst total w)
      (omega arith) (sym (append-nil w.sent))
loop_lem (suc fuel) dst (frame c x y fs) total w (g, a, b, f) h k =
    rw
      (
        loop_unfold fuel dst total (head_bytes c x y ++ (x ++ (y ++ bytes_of fs))) w,
        next_lem dst (relay_loop fuel dst false) c x y (bytes_of fs) total w a b,
        frame_on dst (relay_loop fuel dst false) c x y (head_bytes c x y) (bytes_of fs) total w
            (omega (
              arith,
              length-sent (head_bytes c x y) x y,
              length-frame c x y (bytes_of fs),
              length-head_bytes c x y,
            ))
            g,
      )
      (going_on
        (relay_loop fuel dst false (total + length x) (bytes_of fs)
          (after (head_bytes c x y) x y w))
        x y (head_bytes c x y) fs total w
        (loop_lem fuel dst fs (total + length x) (after (head_bytes c x y) x y w) f
          (omega (arith, length-frame c x y (bytes_of fs)))
          (omega (
            arith,
            length-frame c x y (bytes_of fs),
            length-head_bytes c x y,
            length-sent (head_bytes c x y) x y,
          ))))
loop_lem (suc fuel) dst (last c x y raw) total w (g, a, b) h k =
    rw
      (
        loop_unfold fuel dst total (head_bytes c x y ++ (x ++ (y ++ raw))) w,
        next_lem dst (relay_loop fuel dst false) c x y raw total w a b,
        frame_end dst (relay_loop fuel dst false) c x y (head_bytes c x y) raw total w
            (omega (
              arith,
              length-sent (head_bytes c x y) x y,
              length-frame c x y raw,
              length-head_bytes c x y,
            ))
            g,
      )
      (copied x y (head_bytes c x y) raw total w
        (omega (arith, length-frame c x y raw, length-head_bytes c x y)))

relay_unfold :
    (dst s : Bytes) (w : Conn)
    → relay dst s w ≡ relay_frame dst (relay_loop (length s) dst false) true 0 w (read_full 21 s)
unfolding relay relay_loop header_size
relay_unfold dst s w = refl

length-dst : (dst : Bytes) (c : ℕ) (x y : Bytes) → length (dst ++ head_bytes c x y) ≡ length dst + 5
length-dst dst c x y = omega (arith, length-append dst (head_bytes c x y), length-head_bytes c x y)

relay-Passed :
    (dst u : Bytes) (fs : Frames) (w : Conn)
    → length u ≡ 16
    → length dst ≡ 16
    → IsFramed fs
    → IsStarted fs
    → length (dst ++ bytes_of fs) ≤ w.room
    → Passed
        (relay dst (u ++ bytes_of fs) w)
        (0 + length (contents_of fs))
        (ending fs)
        (w.sent ++ (dst ++ bytes_of fs))
unfolding IsFramed IsStarted bytes_of contents_of ending
relay-Passed dst u stop w g d f st k = absurd st
relay-Passed dst u (frame c x y fs) w g d (e, a, b, f) st k =
    let h = head_bytes c x y in
    let again = relay_loop (length (u ++ (h ++ (x ++ (y ++ bytes_of fs))))) dst false in
    let big = length-append dst (h ++ (x ++ (y ++ bytes_of fs))) in
    let sizes = length-frame c x y (bytes_of fs) in
    rw
      (
        relay_unfold dst (u ++ (h ++ (x ++ (y ++ bytes_of fs)))) w,
        first_lem dst again u c x y (bytes_of fs) 0 w g a b,
        frame_on dst again c x y (dst ++ h) (bytes_of fs) 0 w
            (omega (arith, length-sent (dst ++ h) x y, length-dst dst c x y)) e,
        ← append_assoc dst h (x ++ (y ++ bytes_of fs)),
      )
      (going_on (again (0 + length x) (bytes_of fs) (after (dst ++ h) x y w)) x y (dst ++ h) fs 0 w
        (loop_lem (length (u ++ (h ++ (x ++ (y ++ bytes_of fs))))) dst fs (0 + length x)
          (after (dst ++ h) x y w) f
          (omega (arith, length-append u (h ++ (x ++ (y ++ bytes_of fs)))))
          (omega (arith, length-sent (dst ++ h) x y, length-dst dst c x y))))
relay-Passed dst u (last c x y raw) w g d (e, a, b) st k =
    let h = head_bytes c x y in
    let again = relay_loop (length (u ++ (h ++ (x ++ (y ++ raw))))) dst false in
    let big = length-append dst (h ++ (x ++ (y ++ raw))) in
    let sizes = length-frame c x y raw in
    rw
      (
        relay_unfold dst (u ++ (h ++ (x ++ (y ++ raw)))) w,
        first_lem dst again u c x y raw 0 w g a b,
        frame_end dst again c x y (dst ++ h) raw 0 w
            (omega (arith, length-sent (dst ++ h) x y, length-dst dst c x y)) e,
        ← append_assoc dst h (x ++ (y ++ raw)),
      )
      (copied x y (dst ++ h) raw 0 w (omega (arith, length-dst dst c x y)))

-- On a well-formed stream of frames (at least one frame, lengths within 16 bits, and the command that
-- ends the framing, if any, in the last frame) that starts with any sixteen bytes for a UUID, and with a
-- connection that takes as many bytes, the relay sends the same stream with its own UUID of sixteen
-- bytes in their place, counts the
-- bytes that the frames carry and those after them, and ends without error where the stream ends the
-- framing, and else with the end of the input in place of a header.
pub relay_stream :
    (dst u s : Bytes) (room : ℕ) (fs : Frames)
    → length u ≡ 16
    → length dst ≡ 16
    → IsFramed fs
    → IsStarted fs
    → length (dst ++ bytes_of fs) ≤ room
    → let r = relay dst (u ++ bytes_of fs) (record { sent = s; room = room }) in
      (r.writer.sent ≡ s ++ (dst ++ bytes_of fs))
      × (r.total ≡ length (contents_of fs))
      × (r.error ≡ ending fs)
relay_stream dst u s room fs g d f st k =
    let (a, b, c) = relay-Passed dst u fs (record { sent = s; room = room }) g d f st k in
    (c, a ∙ omega arith, b)
