-- ===== src/Vision/Writer/Bounds.antt =====
-- The size of the frame that `VisionWriter` sends first.
use proxy_balacer.Base.{
  ℕ, ◌+◌, ◌%◌, ◌≤◌, ◌≡◌, ◌∙◌, Bytes, ◌∷◌, ◌++◌, length, take, drop, replicate, put_be16, arith,
  length-append, length-replicate, refl, min, take-append-drop, length-take, append_assoc, ap, true,
  sym,
}
use proxy_balacer.Vision.Frames.{xtls_padding, vision_max_content}
use proxy_balacer.Vision.Writer.{new_vision_writer, write, first_frame}
use proxy_balacer.Vision.Writer.Sends.{first_lem, length-split}

padded_up : (n : ℕ) → ((n + xtls_padding n) % 64 ≡ 0) × (n + xtls_padding n ≤ n + 63)
unfolding xtls_padding
padded_up n = (ground arith, ground arith)

-- The frame of a command 1 with content and padding.
abbrev pub framed : Bytes → Bytes → Bytes → Bytes
framed u content padding =
    u ++ (0x01 ∷ put_be16 (length content) ++ (put_be16 (length padding) ++ (content ++ padding)))

first_framed : (u x : Bytes) → first_frame u x ≡ framed u x (replicate (xtls_padding (length x)) 0)
unfolding first_frame
first_framed u x = rw (length-replicate {A = ℕ} (xtls_padding (length x)) 0) refl

length-framed : (u x y : Bytes) → length (framed u x y) ≡ length u + 5 + (length x + length y)
length-framed u x y = omega (
  arith,
  length-append u (0x01 ∷ put_be16 (length x) ++ (put_be16 (length y) ++ (x ++ y))),
  length-append x y,
)

-- The first write, of any slice, on a connection that takes it, sends one frame and then the rest of the
-- slice as it is, and returns the length of the slice. The content of the frame is the first 16384 bytes of the
-- slice, or all of it where it has no more; content and padding fill a multiple of 64 bytes, at most 16384; the
-- padding is less than 64 bytes.
pub write-bounds :
    (u s p : Bytes) (room : ℕ)
    → length u + length p + 68 ≤ room
    → let out = write p (new_vision_writer (record { sent = s; room = room }) u) in
      (content : Bytes) × (padding : Bytes) × (rest : Bytes) × (out.0 ≡ (length p, true))
      × (out.1.writer.sent ≡ s ++ (framed u content padding ++ rest))
      × (p ≡ content ++ rest)
      × (length content ≡ min (length p) 16384)
      × ((length content + length padding) % 64 ≡ 0)
      × (length content + length padding ≤ 16384)
      × (length padding ≤ 63)
unfolding new_vision_writer
write-bounds u s p room h =
    let x = take vision_max_content p in
    let y : Bytes = replicate (xtls_padding (length x)) 0 in
    let z = drop vision_max_content p in
    let (a, b) = padded_up (length x) in
    let e : length y ≡ xtls_padding (length x) =
      length-replicate {A = ℕ} (xtls_padding (length x)) 0 in
    let f : length (first_frame u x) ≡ length u + 5 + (length x + length y) =
      ap length (first_framed u x) ∙ length-framed u x y in
    let (g, _, i, _) =
      first_lem p (new_vision_writer (record { sent = s; room = room }) u) refl refl
        (omega (arith, f, e, b, length-split vision_max_content p)) in
    (
      x,
      y,
      z,
      g,
      i ∙ append_assoc s (first_frame u x) z ∙ ap (λ t. s ++ (t ++ z)) (first_framed u x),
      sym (take-append-drop vision_max_content p),
      omega (arith, length-take vision_max_content p),
      rw e a,
      omega (arith, a, b, e, length-take vision_max_content p),
      omega (arith, b, e),
    )
