-- ===== src/Vision/Frames.antt =====
-- vision.go: the header of a frame, and the padding of a frame.
pub mod Streams
use proxy_balacer.Base.{
  ℕ, ◌+◌, ◌-◌, ◌%◌, Bytes, Bool, ◌||◌, [], ◌∷◌, ◌==◌, if◌then◌else◌, be16, put_be16, ◌++◌,
  replicate, take, length, Option, none, some,
}

abbrev pub vision_header_size : ℕ
vision_header_size = 21

abbrev pub vision_subsequent_header_size : ℕ
vision_subsequent_header_size = 5

abbrev pub vision_max_content : ℕ
vision_max_content = 16384

-- The command, the length of the content and the length of the padding.
pub record FrameHead : Type 0 where
  pub command : ℕ
  pub content_len : ℕ
  pub padding_len : ℕ

-- The five bytes that end the header, after the UUID where there is one.
unfoldable pub decode_head : Bytes → Option FrameHead
decode_head (c ∷ a ∷ b ∷ x ∷ y ∷ []) =
    some (record { command = c; content_len = be16 a b; padding_len = be16 x y })
decode_head s = none

unfoldable pub ends_framing : ℕ → Bool
ends_framing command = (command == 0x01) || (command == 0x02)

unfoldable pub xtls_padding : ℕ → ℕ
xtls_padding n = if n == 0 then 0 else if n % 64 == 0 then 0 else 64 - n % 64
