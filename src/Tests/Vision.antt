-- ===== src/Tests/Vision.antt =====
-- Streams of frames, written, read and relayed on concrete input.
use proxy_balacer.Base.{
  ℕ, zero, suc, All, ◌=ᵇ◌, Bytes, codes, [], ◌∷◌, ◌++◌, replicate, err, ◌≡◌, refl, arith, true,
  length,
}
use proxy_balacer.Io.{read_full}
use proxy_balacer.Io.Reads.{Requests, deliver, Positive}
use proxy_balacer.Vision.Frames.{ends_framing}
use proxy_balacer.Vision.Frames.Streams.{
  Frames, frame, last, bytes_of, contents_of, IsFramed, IsStarted, head_bytes,
}
use proxy_balacer.Vision.Reader.{VisionError, new_vision_reader, read, read_first}
use proxy_balacer.Vision.Writer.{new_vision_writer}
use proxy_balacer.Vision.Writer.Sends.{write_all}
use proxy_balacer.Vision.Writer.RoundTrip.{read-write_all}
use proxy_balacer.Vision.Relay.{relay}
use proxy_balacer.Vision.Relay.Rounds.{ending}
use proxy_balacer.Vision.Relay.Streams.{relay_stream}

abbrev sevens : Bytes
sevens = replicate 16 7

abbrev nines : Bytes
nines = replicate 16 9

-- A frame with padding, one that ends the framing, and two more bytes.
abbrev frames : Frames
frames = frame 0 (codes "ab") (0 ∷ []) (last 1 (codes "c") [] (codes "de"))

abbrev reads : Requests
reads = replicate 8 (4, 4)

positive : (n : ℕ) → All Positive (replicate n (4, 4))
positive zero = tt
positive (suc n) = ((omega arith, omega arith), positive n)

frames-IsFramed : IsFramed frames
unfolding IsFramed ends_framing
frames-IsFramed = (refl, omega arith, omega arith, (refl, omega arith, omega arith))

frames-IsStarted : IsStarted frames
unfolding IsStarted
frames-IsStarted = tt

frames_bytes :
    bytes_of frames ≡ 0 ∷ 0 ∷ 2 ∷ 0 ∷ 1 ∷ (codes "ab" ++ (0 ∷ 1 ∷ 0 ∷ 1 ∷ 0 ∷ 0 ∷ codes "cde"))
unfolding bytes_of head_bytes
frames_bytes = refl

abbrev wrong : Bytes
wrong = replicate 40 7

mismatch :
    (read 4 4 (new_vision_reader wrong nines)).0 ≡ err (VisionError.uuid_mismatch sevens nines)
unfolding read new_vision_reader read_full read_first ◌=ᵇ◌
mismatch = refl

read-write_all_example :
    let (out, w) =
      write_all
        (codes "ab" ∷ codes "c" ∷ [])
        (new_vision_writer (record { sent = []; room = 100 }) sevens) in
    (out ≡ (2, true) ∷ (1, true) ∷ [])
    × ((deliver read reads (new_vision_reader w.writer.sent sevens)).0 ≡ codes "abc")
read-write_all_example =
    read-write_all sevens 100 (codes "ab") (codes "c" ∷ []) reads refl (omega arith) (positive 8)
      (omega arith)

relay_stream_example :
    let r = relay nines (sevens ++ bytes_of frames) (record { sent = []; room = 100 }) in
    (r.writer.sent ≡ nines ++ bytes_of frames)
    × (r.total ≡ length (contents_of frames))
    × (r.error ≡ ending frames)
unfolding bytes_of head_bytes
relay_stream_example =
    relay_stream nines sevens [] 100 frames refl refl frames-IsFramed frames-IsStarted (omega arith)
