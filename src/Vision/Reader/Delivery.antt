-- ===== src/Vision/Reader/Delivery.antt =====
-- What `VisionReader` delivers of a stream of frames, in any sequence of reads.
use proxy_balacer.Base.{
  ℕ, ◌+◌, ◌≤◌, ◌≡◌, refl, sym, ◌∙◌, ap, Bytes, Bool-cases, [], ◌++◌, length, drop, ltb, min, arith,
  length-append, length-drop, err, All, inl, inr, false, true,
}
use proxy_balacer.Io.{read_full, eof}
use proxy_balacer.Io.Reads.{
  step_of, Requests, Positive, given, deliver, Step, Source, deliver-all, deliver-splits,
}
use proxy_balacer.Vision.Frames.Streams.{
  Frames, stop, frame, last, bytes_of, contents_of, reads_of, IsFramed, IsStarted,
}
use proxy_balacer.Vision.Reader.{
  VisionReader, header_next, new_vision_reader, read, read_first, read_next,
}
use proxy_balacer.Vision.Reader.Stream.{
  pending, Raw, keeps_lem, splits_lem, advances_lem, ends_lem, read-buffered, drop_past, drop_after,
  buffered_advances,
}
use proxy_balacer.Vision.Reader.Framed.{next_lem, first_lem}
use proxy_balacer.Vision.Reader.Reading.{
  Reading, passing, framing, starting, length-contents, split_content, pair_eta, step_frame,
  step_last,
}

read-next :
    (n most : ℕ) (v : VisionReader)
    → ltb v.buf_pos (length v.buf) ≡ false
    → v.raw_mode ≡ false
    → v.is_first ≡ false
    → read n most v ≡ read_next n v (read_full 5 v.reader)
unfolding read
read-next n most v h r f = rw (h, r, f) refl

read-first :
    (n most : ℕ) (v : VisionReader)
    → v.buf ≡ []
    → v.raw_mode ≡ false
    → v.is_first ≡ true
    → read n most v ≡ read_first n v (read_full 21 v.reader)
unfolding read
read-first n most v h r f =
    let e : ltb v.buf_pos (length v.buf) ≡ false = rw h (ground arith) in rw (e, r, f) refl

read_next-end :
    (n : ℕ) (v : VisionReader)
    → read_next n v (read_full 5 []) ≡ (err (header_next eof), record v { reader = [] })
unfolding read_next read_full
read_next-end n v = refl

-- In the framing, with nothing in the buffer.
step_next :
    (n most : ℕ) (v : VisionReader) (fs : Frames) (p : Bytes) (k : ℕ)
    → ltb v.buf_pos (length v.buf) ≡ false
    → v.raw_mode ≡ false
    → v.is_first ≡ false
    → v.reader ≡ bytes_of fs
    → IsFramed fs
    → contents_of fs ≡ p
    → k ≡ reads_of fs
    → Step read Reading n most v p k
unfolding bytes_of contents_of reads_of IsFramed given
step_next n most v stop p k h r f e w q j =
    let d : drop v.buf_pos v.buf ≡ [] = drop_past v.buf_pos v.buf h in
    step_of read Reading n most v p k _ _ p k
      (read-next n most v h r f ∙ ap (λ s. read_next n v (read_full 5 s)) e ∙ read_next-end n v)
      (framing stop r f refl tt (ap (λ s. s ++ []) d ∙ q) (j ∙ ap (λ s. length s + 0) (sym d))) refl
      (λ _. inr (sym q)) (λ _. sym q)
step_next n most v (frame c x y fs) p k h r f e (g, a, b, w) q j =
    step_frame n most c x fs v v p k
      (read-next n most v h r f
        ∙ ap (λ s. read_next n v (read_full 5 s)) e
        ∙ next_lem n c x y (bytes_of fs) v a b)
      r f g w q j
step_next n most v (last c x y raw) p k h r f e (g, a, b) q j =
    step_last n most c x raw v v p k
      (read-next n most v h r f
        ∙ ap (λ s. read_next n v (read_full 5 s)) e
        ∙ next_lem n c x y raw v a b)
      g q j

step_first :
    (n most : ℕ) (v : VisionReader) (fs : Frames) (p : Bytes) (k : ℕ)
    → v.buf ≡ []
    → v.raw_mode ≡ false
    → v.is_first ≡ true
    → length v.uuid ≡ 16
    → v.reader ≡ v.uuid ++ bytes_of fs
    → IsFramed fs
    → IsStarted fs
    → contents_of fs ≡ p
    → k ≡ reads_of fs
    → Step read Reading n most v p k
unfolding bytes_of contents_of reads_of IsFramed IsStarted
step_first n most v stop p k h r f u e w s q j = absurd s
step_first n most v (frame c x y fs) p k h r f u e (g, a, b, w) s q j =
    step_frame n most c x fs v (record v { is_first = false }) p k
      (read-first n most v h r f
        ∙ ap (λ s. read_first n v (read_full 21 s)) e
        ∙ first_lem n c x y (bytes_of fs) v u a b)
      r refl g w q j
step_first n most v (last c x y raw) p k h r f u e (g, a, b) s q j =
    step_last n most c x raw v (record v { is_first = false }) p k
      (read-first n most v h r f
        ∙ ap (λ s. read_first n v (read_full 21 s)) e
        ∙ first_lem n c x y raw v u a b)
      g q j

step_buffered :
    (n most : ℕ) (v : VisionReader) (fs : Frames) (p : Bytes) (k : ℕ)
    → ltb v.buf_pos (length v.buf) ≡ true
    → v.raw_mode ≡ false
    → v.is_first ≡ false
    → v.reader ≡ bytes_of fs
    → IsFramed fs
    → drop v.buf_pos v.buf ++ contents_of fs ≡ p
    → k ≡ length (drop v.buf_pos v.buf) + reads_of fs
    → Step read Reading n most v p k
unfolding given
step_buffered n most v fs p k h r f e w q j =
    let d = drop v.buf_pos v.buf in
    step_of read Reading n most v p k _ _ (drop (min n (length d)) d ++ contents_of fs)
      (length (drop (min n (length d)) d) + reads_of fs) (read-buffered n most v h)
      (framing fs r f e w (ap (λ s. s ++ contents_of fs) (drop_after n v))
        (ap (λ s. length s + reads_of fs) (sym (drop_after n v))))
      (split_content n d (contents_of fs) ∙ q)
      (λ u. inl (
        omega (
          arith,
          buffered_advances n d [] u.0 (ground (arith, length-drop v.buf_pos v.buf)),
          length-append d [],
          length-append (drop (min n (length d)) d) [],
        )))
      (λ a. absurd a)

step_passing :
    (n most : ℕ) (v : VisionReader) (p : Bytes) (k : ℕ)
    → Raw v
    → pending v ≡ p
    → k ≡ length p
    → Step read Reading n most v p k
step_passing n most v p k r q j =
    step_of read Reading n most v p k _ _ (pending (read n most v).1)
      (length (pending (read n most v).1)) (pair_eta (read n most v))
      (passing (keeps_lem n most v r) refl refl) (splits_lem n most v r ∙ q)
      (λ u. elim (advances_lem n most v u r) [
        | inl a ↦ inl (omega (arith, ap length q))
        | inr a ↦ inr (sym q ∙ a)
      ])
      (λ a. sym q ∙ ends_lem n most v r a)

step_lem :
    (n most : ℕ) (v : VisionReader) (p : Bytes) (k : ℕ)
    → Reading v p k
    → Step read Reading n most v p k
step_lem n most v p k (passing r q j) = step_passing n most v p k r q j
step_lem n most v p k (framing fs r f e w q j) = elim (Bool-cases (ltb v.buf_pos (length v.buf))) [
  | inl h ↦ step_buffered n most v fs p k h r f e w q j
  | inr h ↦
      let d = drop_past v.buf_pos v.buf h in
      step_next n most v fs p k h r f e w (sym (ap (λ s. s ++ contents_of fs) d) ∙ q)
        (let g = ap length d in omega arith)
]
step_lem n most v p k (starting fs r f u e w s h q j) = step_first n most v fs p k h r f u e w s q j

bound_lem : (v : VisionReader) (p : Bytes) (k : ℕ) → Reading v p k → length p ≤ k
bound_lem v p k (passing r q j) = omega arith
bound_lem v p k (framing fs r f e w q j) =
    omega (
      arith,
      ap length q,
      length-append (drop v.buf_pos v.buf) (contents_of fs),
      length-contents fs,
    )
bound_lem v p k (starting fs r f u e w s h q j) = omega (arith, ap length q, length-contents fs)

pub reader_source : Source read Reading
reader_source = record { step = step_lem; bound = bound_lem }

pub start :
    (u : Bytes) (fs : Frames)
    → length u ≡ 16
    → IsFramed fs
    → IsStarted fs
    → Reading (new_vision_reader (u ++ bytes_of fs) u) (contents_of fs) (reads_of fs)
unfolding new_vision_reader
start u fs h w s = starting fs refl refl h refl w s refl refl refl

-- Whatever the sizes of the buffers and of the pieces that arrive, the reads of a reader made with the
-- UUID, of sixteen bytes, of a well-formed stream of frames (at least one frame, lengths within 16 bits,
-- and the command that ends the framing, if any, in the last frame) deliver a first part of what the
-- stream carries, in order.
pub deliver_prefix :
    (u : Bytes) (fs : Frames) (rs : Requests)
    → length u ≡ 16
    → IsFramed fs
    → IsStarted fs
    → (rest : Bytes) × ((deliver read rs (new_vision_reader (u ++ bytes_of fs) u)).0 ++ rest
        ≡ contents_of fs)
deliver_prefix u fs rs h w s = (_, deliver-splits read reader_source rs _ _ _ (start u fs h w s))

-- As many reads as `reads_of` counts, each with room for a byte and a byte arrived, deliver all that a
-- well-formed stream of frames (at least one frame, lengths within 16 bits, and the command that ends the
-- framing, if any, in the last frame) carries, where the reader was made with the UUID of the stream, of
-- sixteen bytes.
pub deliver-contents_of :
    (u : Bytes) (fs : Frames) (rs : Requests)
    → length u ≡ 16
    → IsFramed fs
    → IsStarted fs
    → All Positive rs
    → reads_of fs ≤ length rs
    → (deliver read rs (new_vision_reader (u ++ bytes_of fs) u)).0 ≡ contents_of fs
deliver-contents_of u fs rs h w s ps k =
    deliver-all read reader_source rs _ _ _ (start u fs h w s) ps k
