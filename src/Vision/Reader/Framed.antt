-- ===== src/Vision/Reader/Framed.antt =====
-- `VisionReader` on one frame.
use proxy_balacer.Base.{
  ℕ, ◌<◌, ◌≡◌, refl, sym, ◌∙◌, ap, Bytes, Bool, [], ◌∷◌, ◌++◌, length, take, drop, ltb, arith,
  length-append, take-length_append, drop-length_append, text_eq_refl, be16-put, suc, append_assoc,
  false, ok, some,
}
use proxy_balacer.Io.{read_full, read_full-append}
use proxy_balacer.Vision.Frames.{decode_head}
use proxy_balacer.Vision.Frames.Streams.{head_bytes}
use proxy_balacer.Vision.Reader.{
  VisionReader, read_first, read_next, read_body, read_content, read_padding, finish_frame,
}

pub decode-head_bytes :
    (c : ℕ) (x y : Bytes)
    → length x < 65536
    → length y < 65536
    → decode_head (head_bytes c x y)
      ≡ some (record { command = c; content_len = length x; padding_len = length y })
unfolding decode_head head_bytes
decode-head_bytes c x y h k = rw (be16-put (length x) h, be16-put (length y) k) refl

pub length-head_bytes : (c : ℕ) (x y : Bytes) → length (head_bytes c x y) ≡ 5
unfolding head_bytes
length-head_bytes c x y = refl

pub read_5 :
    (c : ℕ) (x y s : Bytes) → read_full 5 (head_bytes c x y ++ s) ≡ ok (head_bytes c x y, s)
read_5 c x y s = rw (← length-head_bytes c x y) (read_full-append (head_bytes c x y) s)

pub read_21 :
    (u : Bytes) (c : ℕ) (x y s : Bytes)
    → length u ≡ 16
    → read_full 21 (u ++ (head_bytes c x y ++ s)) ≡ ok (u ++ head_bytes c x y, s)
read_21 u c x y s h =
    let e : length (u ++ head_bytes c x y) ≡ 21 =
      omega (arith, length-append u (head_bytes c x y), length-head_bytes c x y) in
    ap (λ k. read_full k (u ++ (head_bytes c x y ++ s))) (sym e)
    ∙ ap (read_full (length (u ++ head_bytes c x y))) (sym (append_assoc u (head_bytes c x y) s))
    ∙ read_full-append (u ++ head_bytes c x y) s

take_16 : (u s : Bytes) → length u ≡ 16 → take 16 (u ++ s) ≡ u
take_16 u s h = ap (λ k. take k (u ++ s)) (sym h) ∙ take-length_append u s

pub drop_16 : (u s : Bytes) → length u ≡ 16 → drop 16 (u ++ s) ≡ s
drop_16 u s h = ap (λ k. drop k (u ++ s)) (sym h) ∙ drop-length_append u s

ltb-suc : (n : ℕ) → ltb 0 (suc n) ≡ Bool.true
ltb-suc n = ground arith

content_lem :
    (n c : ℕ) (x y rest : Bytes) (v : VisionReader)
    → read_content n
        (record { command = c; content_len = length x; padding_len = length y })
        v
        (ok (x, y ++ rest))
      ≡ finish_frame n c x (record v { reader = rest })
unfolding read_content read_padding
content_lem n c x [] rest v = refl
content_lem n c x (b ∷ y) rest v = rw (ltb-suc (length y), read_full-append (b ∷ y) rest) refl

body_lem :
    (n c : ℕ) (x y rest : Bytes) (v : VisionReader)
    → read_body n
        (some (record { command = c; content_len = length x; padding_len = length y }))
        (record v { reader = x ++ (y ++ rest) })
      ≡ finish_frame n c x (record v { reader = rest })
unfolding read_body
body_lem n c [] y rest v = content_lem n c [] y rest (record v { reader = y ++ rest })
body_lem n c (b ∷ x) y rest v =
    rw (ltb-suc (length x), read_full-append (b ∷ x) (y ++ rest))
      (content_lem n c (b ∷ x) y rest (record v { reader = b ∷ x ++ (y ++ rest) }))

-- A header read after the first frame, and what the reader makes of it.
pub next_lem :
    (n c : ℕ) (x y rest : Bytes) (v : VisionReader)
    → length x < 65536
    → length y < 65536
    → read_next n v (read_full 5 (head_bytes c x y ++ (x ++ (y ++ rest))))
      ≡ finish_frame n c x (record v { reader = rest })
unfolding read_next
next_lem n c x y rest v h k =
    rw (read_5 c x y (x ++ (y ++ rest)), decode-head_bytes c x y h k) (body_lem n c x y rest v)

-- The header of the first frame, with the UUID that the reader expects.
pub first_lem :
    (n c : ℕ) (x y rest : Bytes) (v : VisionReader)
    → length v.uuid ≡ 16
    → length x < 65536
    → length y < 65536
    → read_first n v (read_full 21 (v.uuid ++ (head_bytes c x y ++ (x ++ (y ++ rest)))))
      ≡ finish_frame n c x (record v { reader = rest; is_first = false })
unfolding read_first
first_lem n c x y rest v u h k =
    rw
      (
        read_21 v.uuid c x y (x ++ (y ++ rest)) u,
        take_16 v.uuid (head_bytes c x y) u,
        drop_16 v.uuid (head_bytes c x y) u,
        text_eq_refl v.uuid,
        decode-head_bytes c x y h k,
      )
      (body_lem n c x y rest (record v { is_first = false }))
