-- ===== src/Vision/Writer/Copies.antt =====
-- `VisionWriter` as the sink of an `io.Copy`.
use proxy_balacer.Base.{
  ℕ, suc, ◌+◌, ◌-◌, ◌≤◌, ◌≡◌, refl, sym, ◌∙◌, ap, Bytes, [], ◌∷◌, ◌++◌, length, take, drop, arith,
  length-append, length-take, append_assoc, take-append-drop, replicate, All, true, false, subst,
  ◌<◌,
}
use proxy_balacer.Io.Copy.{Sink}
use proxy_balacer.Io.Reads.{Requests, Positive, deliver}
use proxy_balacer.Vision.Frames.{vision_max_content, xtls_padding, ends_framing}
use proxy_balacer.Vision.Frames.Streams.{Frames, last, contents_of, reads_of, IsFramed, IsStarted}
use proxy_balacer.Vision.Reader.{read, new_vision_reader}
use proxy_balacer.Vision.Writer.{VisionWriter, new_vision_writer, write, first_frame}
use proxy_balacer.Vision.Writer.Sends.{raw_lem, first_lem, frame_lem, length-split}
use proxy_balacer.Vision.Writer.RoundTrip.{length-first_frame, delivers_lem, framed_lem}

-- The states of a writer whose connection was new, with what has been written to it.
pub data Writing (u : Bytes) (w : VisionWriter) (o : Bytes) (n : ℕ) : Type 0 where
  fresh :
      w.raw_mode ≡ false
      → w.is_first ≡ true
      → w.uuid ≡ u
      → w.writer.sent ≡ []
      → o ≡ []
      → n + 84 ≤ w.writer.room
      → Writing u w o n
  begun :
      (x y : Bytes)
      → w.raw_mode ≡ true
      → length x ≤ 16384
      → w.writer.sent ≡ first_frame u x ++ y
      → o ≡ x ++ y
      → n ≤ w.writer.room
      → Writing u w o n

begins :
    (u : Bytes) (w : VisionWriter) (n x : ℕ) (p : Bytes)
    → length u ≡ 16
    → w.raw_mode ≡ false
    → w.is_first ≡ true
    → w.uuid ≡ u
    → w.writer.sent ≡ []
    → n + 84 ≤ w.writer.room
    → length (x ∷ p) ≤ n
    → (w1 : VisionWriter) × (write (x ∷ p) w ≡ ((length (x ∷ p), true), w1))
      × Writing u w1 (x ∷ p) (n - length (x ∷ p))
begins u w n x p g a b c d h k =
    let q = x ∷ p in
    let y = take vision_max_content q in
    let z = drop vision_max_content q in
    let l : length (first_frame w.uuid y) + length z ≤ length q + 84 =
      omega
        (arith, length-first_frame w.uuid y (ap length c ∙ g), length-split vision_max_content q) in
    let (e, f, i, j) = first_lem q w a b (omega (arith, l)) in
    (
      (write q w).1,
      ap (λ r. (r, (write q w).1)) e,
      begun y z f (omega (arith, length-take vision_max_content q))
          (i ∙ ap (λ s. (s ++ first_frame w.uuid y) ++ z) d ∙ ap (λ v. first_frame v y ++ z) c)
          (sym (take-append-drop vision_max_content q)) (omega (arith, l, j)),
    )

takes_lem :
    (u : Bytes) (w : VisionWriter) (o : Bytes) (n x : ℕ) (p : Bytes)
    → length u ≡ 16
    → Writing u w o n
    → length (x ∷ p) ≤ n
    → (w1 : VisionWriter) × (write (x ∷ p) w ≡ ((length (x ∷ p), true), w1))
      × Writing u w1 (o ++ x ∷ p) (n - length (x ∷ p))
takes_lem u w o n x p g (fresh a b c d e h) k =
    let (w1, f, r) = begins u w n x p g a b c d h k in
    (w1, f, subst (λ q. Writing u w1 (q ++ x ∷ p) (n - length (x ∷ p))) (sym e) r)
takes_lem u w o n x p g (begun y z r l s e h) k =
    let (a, b, c, d) = raw_lem (x ∷ p) w r (omega arith) in
    (
      (write (x ∷ p) w).1,
      ap (λ q. (q, (write (x ∷ p) w).1)) a,
      begun y (z ++ x ∷ p) b l
          (c ∙ ap (λ q. q ++ x ∷ p) s ∙ append_assoc (first_frame u y) z (x ∷ p))
          (ap (λ q. q ++ x ∷ p) e ∙ append_assoc y z (x ∷ p)) (omega (arith, d)),
    )

pub writer_sink : (u : Bytes) → length u ≡ 16 → Sink write (Writing u)
writer_sink u g = record { takes = λ w o n x p. takes_lem u w o n x p g }

pub new-Writing :
    (u : Bytes) (room : ℕ)
    → Writing u (new_vision_writer (record { sent = []; room = room + 84 }) u) [] room
unfolding new_vision_writer
new-Writing u room = fresh refl refl refl refl refl (omega arith)

one_frame : Bytes → Bytes → Frames
one_frame x y = last 0x01 x (replicate (xtls_padding (length x)) 0) y

read_begun :
    (u x y s : Bytes) (rs : Requests)
    → length u ≡ 16
    → length x ≤ 16384
    → s ≡ first_frame u x ++ y
    → All Positive rs
    → length (x ++ y) < length rs
    → (deliver read rs (new_vision_reader s u)).0 ≡ x ++ y
unfolding one_frame IsFramed IsStarted ends_framing contents_of reads_of
read_begun u x y s rs g l e ps k =
    delivers_lem u s (x ++ y) (one_frame x y) rs g (framed_lem x l) tt refl
      (ap suc (sym (length-append x y))) (e ∙ frame_lem u x y) ps k

-- What a writer has taken, at least a byte, a reader gives back.
pub read-Writing :
    (u : Bytes) (w : VisionWriter) (o : Bytes) (n : ℕ) (rs : Requests)
    → length u ≡ 16
    → Writing u w o n
    → 1 ≤ length o
    → All Positive rs
    → length o < length rs
    → (deliver read rs (new_vision_reader w.writer.sent u)).0 ≡ o
read-Writing u w o n rs g (fresh a b c d e h) m ps k = absurd (omega (arith, ap length e))
read-Writing u w o n rs g (begun x y r l s e h) m ps k =
    read_begun u x y w.writer.sent rs g l s ps (omega (arith, ap length e)) ∙ sym e
