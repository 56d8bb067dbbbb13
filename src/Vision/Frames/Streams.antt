-- ===== src/Vision/Frames/Streams.antt =====
-- The streams that the readers and the relay of vision.go are meant for: frames, the last of which
-- may end the framing, with the bytes that follow it.
use proxy_balacer.Base.{ℕ, suc, ◌+◌, ◌<◌, ◌≡◌, Bytes, Bool, [], ◌∷◌, ◌++◌, length, put_be16}
use proxy_balacer.Vision.Frames.{ends_framing}

pub data Frames : Type 0 where
  stop : Frames
  frame : ℕ → Bytes → Bytes → Frames → Frames
  last : ℕ → Bytes → Bytes → Bytes → Frames

-- The five bytes of a header.
unfoldable pub head_bytes : ℕ → Bytes → Bytes → Bytes
head_bytes command content padding =
    command ∷ put_be16 (length content) ++ put_be16 (length padding)

-- The stream after the UUID of its first frame.
unfoldable pub bytes_of : Frames → Bytes
bytes_of stop = []
bytes_of (frame c x y fs) = head_bytes c x y ++ (x ++ (y ++ bytes_of fs))
bytes_of (last c x y raw) = head_bytes c x y ++ (x ++ (y ++ raw))

-- What the frames carry.
unfoldable pub contents_of : Frames → Bytes
contents_of stop = []
contents_of (frame c x y fs) = x ++ contents_of fs
contents_of (last c x y raw) = x ++ raw

-- The reads that a stream takes at most.
unfoldable pub reads_of : Frames → ℕ
reads_of stop = 0
reads_of (frame c x y fs) = suc (length x + reads_of fs)
reads_of (last c x y raw) = suc (length x + length raw)

-- The lengths fit their fields, and the command that ends the framing is that of the last frame.
unfoldable pub IsFramed : Frames → Type 0
IsFramed stop = Unit
IsFramed (frame c x y fs) =
    (ends_framing c ≡ Bool.false) × (length x < 65536) × (length y < 65536) × IsFramed fs
IsFramed (last c x y raw) = (ends_framing c ≡ Bool.true) × (length x < 65536) × (length y < 65536)

-- The first frame, which carries the UUID, is there.
unfoldable pub IsStarted : Frames → Type 0
IsStarted stop = ⊥
IsStarted (frame c x y fs) = Unit
IsStarted (last c x y raw) = Unit
