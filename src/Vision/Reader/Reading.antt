-- ===== src/Vision/Reader/Reading.antt =====
-- The states of `VisionReader` on a stream of frames, and the reads that finish a frame.
use proxy_balacer.Base.{
  ℕ, suc, ◌+◌, ◌≤◌, ◌≡◌, refl, sym, ◌∙◌, ap, Bytes, [], ◌++◌, length, take, drop, min, arith,
  length-append, length-drop, append_assoc, inl, Result, false, true,
}
use proxy_balacer.Io.Reads.{step_of, given, Step, IsEnd}
use proxy_balacer.Vision.Frames.{ends_framing}
use proxy_balacer.Vision.Frames.Streams.{
  Frames, stop, frame, last, bytes_of, contents_of, reads_of, IsFramed, IsStarted,
}
use proxy_balacer.Vision.Reader.{VisionReader, VisionError, read, finish_frame}
use proxy_balacer.Vision.Reader.Stream.{pending, Raw, take-append-drop-min}

-- The states of a reader on a stream of frames, with what it has still to deliver.
pub data Reading (v : VisionReader) (p : Bytes) (k : ℕ) : Type 0 where
  passing : Raw v → pending v ≡ p → k ≡ length p → Reading v p k
  framing :
      (fs : Frames)
      → v.raw_mode ≡ false
      → v.is_first ≡ false
      → v.reader ≡ bytes_of fs
      → IsFramed fs
      → drop v.buf_pos v.buf ++ contents_of fs ≡ p
      → k ≡ length (drop v.buf_pos v.buf) + reads_of fs
      → Reading v p k
  starting :
      (fs : Frames)
      → v.raw_mode ≡ false
      → v.is_first ≡ true
      → length v.uuid ≡ 16
      → v.reader ≡ v.uuid ++ bytes_of fs
      → IsFramed fs
      → IsStarted fs
      → v.buf ≡ []
      → contents_of fs ≡ p
      → k ≡ reads_of fs
      → Reading v p k

pub length-contents : (fs : Frames) → length (contents_of fs) ≤ reads_of fs
unfolding contents_of reads_of
length-contents stop = omega arith
length-contents (frame c x y fs) =
    omega (arith, length-append x (contents_of fs), length-contents fs)
length-contents (last c x y raw) = omega (arith, length-append x raw)

pub split_content : (n : ℕ) (x q : Bytes) → take n x ++ (drop (min n (length x)) x ++ q) ≡ x ++ q
split_content n x q =
    sym (append_assoc (take n x) _ q) ∙ ap (λ t. t ++ q) (take-append-drop-min n x)

-- The state after one frame, of the content `x`.
after_frame :
    (n c : ℕ) (x : Bytes) (fs : Frames) (v : VisionReader)
    → v.raw_mode ≡ false
    → v.is_first ≡ false
    → ends_framing c ≡ false
    → IsFramed fs
    → Reading
        (finish_frame n c x (record v { reader = bytes_of fs })).1
        (drop (min n (length x)) x ++ contents_of fs)
        (length (drop (min n (length x)) x) + reads_of fs)
unfolding finish_frame
after_frame n c x fs v r f e w = framing fs (rw (e, r) refl) f refl w refl refl

after_last :
    (n c : ℕ) (x raw : Bytes) (v : VisionReader)
    → ends_framing c ≡ true
    → Reading
        (finish_frame n c x (record v { reader = raw })).1
        (drop (min n (length x)) x ++ raw)
        (length (drop (min n (length x)) x ++ raw))
unfolding finish_frame pending
after_last n c x raw v e = passing (rw e refl) refl refl

finish_given : (n c : ℕ) (x : Bytes) (v : VisionReader) → given (finish_frame n c x v).0 ≡ take n x
unfolding finish_frame given
finish_given n c x v = refl

finish_ends :
    (n c : ℕ) (x : Bytes) (v : VisionReader) (p : Bytes) → IsEnd (finish_frame n c x v).0 → p ≡ []
unfolding finish_frame
finish_ends n c x v p e = absurd e

pub pair_eta : (x : Result VisionError Bytes × VisionReader) → x ≡ (x.0, x.1)
pair_eta x = refl

-- A read that finishes a frame.
pub step_frame :
    (n most c : ℕ) (x : Bytes) (fs : Frames) (v v1 : VisionReader) (p : Bytes) (k : ℕ)
    → read n most v ≡ finish_frame n c x (record v1 { reader = bytes_of fs })
    → v1.raw_mode ≡ false
    → v1.is_first ≡ false
    → ends_framing c ≡ false
    → IsFramed fs
    → x ++ contents_of fs ≡ p
    → k ≡ suc (length x + reads_of fs)
    → Step read Reading n most v p k
step_frame n most c x fs v v1 p k e r f g w q j =
    step_of read Reading n most v p k _ _ _ _ e (after_frame n c x fs v1 r f g w)
      (rw (finish_given n c x (record v1 { reader = bytes_of fs }))
        (split_content n x (contents_of fs) ∙ q))
      (λ _. inl (omega (arith, length-drop (min n (length x)) x)))
      (finish_ends n c x (record v1 { reader = bytes_of fs }) p)

pub step_last :
    (n most c : ℕ) (x raw : Bytes) (v v1 : VisionReader) (p : Bytes) (k : ℕ)
    → read n most v ≡ finish_frame n c x (record v1 { reader = raw })
    → ends_framing c ≡ true
    → x ++ raw ≡ p
    → k ≡ suc (length x + length raw)
    → Step read Reading n most v p k
step_last n most c x raw v v1 p k e g q j =
    step_of read Reading n most v p k _ _ _ _ e (after_last n c x raw v1 g)
      (rw (finish_given n c x (record v1 { reader = raw })) (split_content n x raw ∙ q))
      (λ _. inl (
        omega
          (arith, length-drop (min n (length x)) x, length-append (drop (min n (length x)) x) raw)))
      (finish_ends n c x (record v1 { reader = raw }) p)
