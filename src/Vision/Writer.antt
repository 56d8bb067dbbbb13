-- ===== src/Vision/Writer.antt =====
-- vision.go: `VisionWriter`.
pub mod Sends
pub mod RoundTrip
pub mod Copies
pub mod Bounds
use proxy_balacer.Base.{
  ℕ, zero, ◌+◌, ◌%◌, Bytes, Bool, true, false, [], ◌∷◌, ◌++◌, take, drop, length, ltb, replicate,
  if◌then◌else◌, min, put_be16,
}
use proxy_balacer.Io.{Conn, conn_write}
use proxy_balacer.Vision.Frames.{vision_max_content, xtls_padding}

pub record VisionWriter : Type 0 where
  pub writer : Conn
  pub uuid : Bytes
  pub raw_mode : Bool
  pub is_first : Bool

unfoldable pub new_vision_writer : Conn → Bytes → VisionWriter
new_vision_writer w uuid = record { writer = w; uuid = uuid; raw_mode = false; is_first = true }

-- The first frame: the command 1, the two lengths, the content and its padding with zeros.
unfoldable pub first_frame : Bytes → Bytes → Bytes
first_frame uuid chunk =
    uuid
    ++ (0x01 ∷ put_be16 (length chunk)
        ++ (put_be16 (xtls_padding (length chunk))
            ++ (chunk ++ replicate (xtls_padding (length chunk)) 0)))

-- The count returned, whether the error is nil, and the writer.
unfoldable pub write_rest : ℕ → Bytes → VisionWriter → (ℕ × Bool) × VisionWriter
write_rest total [] w = ((total, true), record w { raw_mode = true })
write_rest total (b ∷ p) w =
    let ((n, good), c) = conn_write (b ∷ p) w.writer in
    ((total + n, good), record w { raw_mode = true; writer = c })

unfoldable pub write_first : Bytes → Bytes → VisionWriter → (ℕ × Bool) × VisionWriter
unfolding write_rest
write_first chunk rest w =
    let ((n, good), c) = conn_write (first_frame w.uuid chunk) w.writer in
    if good
    then write_rest (length chunk) rest (record w { writer = c; is_first = false })
    else ((0, false), record w { writer = c })

-- `VisionWriter.Write`.
unfoldable pub write : Bytes → VisionWriter → (ℕ × Bool) × VisionWriter
unfolding write_first write_rest
write p w =
    if w.raw_mode
    then (let ((n, good), c) = conn_write p w.writer in ((n, good), record w { writer = c }))
    else if w.is_first
    then write_first (take vision_max_content p) (drop vision_max_content p) w
    else write_rest 0 p w
