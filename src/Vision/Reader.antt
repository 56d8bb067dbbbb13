-- ===== src/Vision/Reader.antt =====
-- vision.go: `VisionReader`.
pub mod Stream
pub mod Framed
pub mod Reading
pub mod Delivery
use proxy_balacer.Base.{
  ℕ, ◌<◌, Bytes, Bool, true, false, Option, none, some, [], ◌++◌, take, drop, length, ltb, ◌=ᵇ◌,
  if◌then◌else◌, Result, ok, err, panic, min, ◌+◌, ◌==◌,
}
use proxy_balacer.Io.{ReadError, read_full, read_some}
use proxy_balacer.Vision.Frames.{
  vision_header_size, vision_subsequent_header_size, FrameHead, decode_head, ends_framing,
}

pub data VisionError : Type 0 where
  header_first header_next content padding raw : ReadError → VisionError
  uuid_mismatch : Bytes → Bytes → VisionError

pub record VisionReader : Type 0 where
  pub reader : Bytes
  pub uuid : Bytes
  pub raw_mode : Bool
  pub is_first : Bool
  pub buf : Bytes
  pub buf_pos : ℕ

unfoldable pub new_vision_reader : Bytes → Bytes → VisionReader
new_vision_reader r uuid = record {
  reader = r;
  uuid = uuid;
  raw_mode = false;
  is_first = true;
  buf = [];
  buf_pos = 0;
}

-- The frame that `io.ReadFull` delivered: its content into the buffer, its padding dropped, and the
-- mode by its command. The first bytes of the content go to the caller.
unfoldable pub finish_frame : ℕ → ℕ → Bytes → VisionReader → Result VisionError Bytes × VisionReader
finish_frame n command body v = (
  ok (take n body),
  record v {
    raw_mode = if ends_framing command then true else v.raw_mode;
    buf = body;
    buf_pos = min n (length body);
  },
)

unfoldable pub read_padding :
    ℕ
    → FrameHead
    → Bytes
    → VisionReader
    → Result ReadError (Bytes × Bytes)
    → Result VisionError Bytes × VisionReader
read_padding n h body v (ok (pad, rest)) =
    finish_frame n h.command body (record v { reader = rest })
read_padding n h body v (err e) = (err (padding e), record v { reader = [] })
read_padding n h body v panic = (panic, v)

unfoldable pub read_content :
    ℕ
    → FrameHead
    → VisionReader
    → Result ReadError (Bytes × Bytes)
    → Result VisionError Bytes × VisionReader
unfolding read_padding
read_content n h v (ok (body, rest)) =
    if ltb 0 h.padding_len
    then read_padding n h body v (read_full h.padding_len rest)
    else finish_frame n h.command body (record v { reader = rest })
read_content n h v (err e) = (err (content e), record v { reader = [] })
read_content n h v panic = (panic, v)

unfoldable pub read_body :
    ℕ → Option FrameHead → VisionReader → Result VisionError Bytes × VisionReader
read_body n (some h) v =
    if ltb 0 h.content_len
    then read_content n h v (read_full h.content_len v.reader)
    else read_content n h v (ok ([], v.reader))
read_body n none v = (panic, v)

unfoldable pub read_first :
    ℕ → VisionReader → Result ReadError (Bytes × Bytes) → Result VisionError Bytes × VisionReader
read_first n v (ok (h, rest)) =
    if take 16 h =ᵇ v.uuid
    then read_body n (decode_head (drop 16 h)) (record v { reader = rest; is_first = false })
    else (err (uuid_mismatch (take 16 h) v.uuid), record v { reader = rest })
read_first n v (err e) = (err (header_first e), record v { reader = [] })
read_first n v panic = (panic, v)

unfoldable pub read_next :
    ℕ → VisionReader → Result ReadError (Bytes × Bytes) → Result VisionError Bytes × VisionReader
read_next n v (ok (h, rest)) = read_body n (decode_head h) (record v { reader = rest })
read_next n v (err e) = (err (header_next e), record v { reader = [] })
read_next n v panic = (panic, v)

unfoldable pub read_raw :
    VisionReader → Result ReadError (Bytes × Bytes) → Result VisionError Bytes × VisionReader
read_raw v (ok (xs, rest)) = (ok xs, record v { reader = rest })
read_raw v (err e) = (err (raw e), record v { reader = [] })
read_raw v panic = (panic, v)

-- `VisionReader.Read` into a buffer of `n` bytes, with `most` bytes arrived where it reads the
-- connection once.
unfoldable pub read : ℕ → ℕ → VisionReader → Result VisionError Bytes × VisionReader
read n most v =
    if ltb v.buf_pos (length v.buf)
    then (
      ok (take n (drop v.buf_pos v.buf)),
      record v { buf_pos = v.buf_pos + min n (length (drop v.buf_pos v.buf)) },
    )
    else if v.raw_mode
    then read_raw v (read_some n most v.reader)
    else if v.is_first
    then read_first n v (read_full vision_header_size v.reader)
    else read_next n v (read_full vision_subsequent_header_size v.reader)
