-- ===== src/Vision/Writer/Sends.antt =====
-- What `VisionWriter` sends.
use proxy_balacer.Base.{
  ℕ, ◌+◌, ◌-◌, ◌≤◌, ◌≡◌, refl, sym, ◌∙◌, ap, Bytes, Bool, List, [], ◌∷◌, ◌++◌, map, length, take,
  drop, replicate, arith, length-append, length-replicate, append_assoc, append-nil,
  take-append-drop, true, false,
}
use proxy_balacer.Io.Copy.{write_fits}
use proxy_balacer.Vision.Frames.{xtls_padding, vision_max_content}
use proxy_balacer.Vision.Frames.Streams.{Frames, last, bytes_of, head_bytes}
use proxy_balacer.Vision.Writer.{
  VisionWriter, new_vision_writer, write, write_first, write_rest, first_frame,
}

abbrev pub join : List Bytes → Bytes
join [] = []
join (p ∷ ps) = p ++ join ps

-- The writes of a list of slices, in order, with what each returns.
unfoldable pub write_all : List Bytes → VisionWriter → List (ℕ × Bool) × VisionWriter
write_all [] w = ([], w)
write_all (p ∷ ps) w =
    let (res, w1) = write p w in let (rest, w2) = write_all ps w1 in (res ∷ rest, w2)

-- One frame, with the command that ends the framing, and the rest.
unfoldable pub written : Bytes → List Bytes → Frames
written p ps =
    let c = take vision_max_content p in
    last 0x01 c (replicate (xtls_padding (length c)) 0) (drop vision_max_content p ++ join ps)

-- A write that sent `s` and left a writer in raw mode.
abbrev pub Sent : (ℕ × Bool) × VisionWriter → ℕ → Bytes → ℕ → Type 0
Sent out n s room =
    (out.0 ≡ (n, true))
    × (out.1.raw_mode ≡ true)
    × (out.1.writer.sent ≡ s)
    × (out.1.writer.room ≡ room)

rest_lem :
    (total : ℕ) (p : Bytes) (w : VisionWriter)
    → length p ≤ w.writer.room
    → Sent (write_rest total p w) (total + length p) (w.writer.sent ++ p) (w.writer.room - length p)
unfolding write_rest
rest_lem total [] w h =
    let e : total + 0 ≡ total = omega arith in
    (ap (λ n. (n, true)) (sym e), refl, sym (append-nil w.writer.sent), omega arith)
rest_lem total (b ∷ p) w h = rw (write_fits (b ∷ p) w.writer h) (refl, refl, refl, refl)

pub raw_lem :
    (p : Bytes) (w : VisionWriter)
    → w.raw_mode ≡ true
    → length p ≤ w.writer.room
    → Sent (write p w) (length p) (w.writer.sent ++ p) (w.writer.room - length p)
unfolding write
raw_lem p w r h = rw (r, write_fits p w.writer h) (refl, refl, refl, refl)

write_starts :
    (p : Bytes) (w : VisionWriter)
    → w.raw_mode ≡ false
    → w.is_first ≡ true
    → (let f = first_frame w.uuid (take vision_max_content p) in
        length f ≤ w.writer.room
        → write p w
          ≡ write_rest (length (take vision_max_content p)) (drop vision_max_content p) (record w {
            writer = record { sent = w.writer.sent ++ f; room = w.writer.room - length f };
            is_first = false;
          }))
unfolding write write_first
write_starts p w r f h =
    rw (r, f, write_fits (first_frame w.uuid (take vision_max_content p)) w.writer h) refl

pub length-split : (n : ℕ) (p : Bytes) → length (take n p) + length (drop n p) ≡ length p
length-split n p = sym (length-append (take n p) (drop n p)) ∙ ap length (take-append-drop n p)

pub first_lem :
    (p : Bytes) (w : VisionWriter)
    → w.raw_mode ≡ false
    → w.is_first ≡ true
    → (let f = first_frame w.uuid (take vision_max_content p) in
        length f + length (drop vision_max_content p) ≤ w.writer.room
        → Sent
            (write p w)
            (length p)
            ((w.writer.sent ++ f) ++ drop vision_max_content p)
            ((w.writer.room - length f) - length (drop vision_max_content p)))
first_lem p w r f h =
    rw (write_starts p w r f (omega arith), ← length-split vision_max_content p)
      (rest_lem (length (take vision_max_content p)) (drop vision_max_content p) _ (omega arith))

raw_writes :
    (ps : List Bytes) (w : VisionWriter)
    → w.raw_mode ≡ true
    → length (join ps) ≤ w.writer.room
    → ((write_all ps w).0 ≡ map (λ p. (length p, true)) ps)
      × ((write_all ps w).1.writer.sent ≡ w.writer.sent ++ join ps)
unfolding write_all
raw_writes [] w r h = (refl, sym (append-nil w.writer.sent))
raw_writes (p ∷ ps) w r h =
    let (a, b, c, d) = raw_lem p w r (omega (arith, length-append p (join ps))) in
    let (e, f) = raw_writes ps (write p w).1 b (omega (arith, length-append p (join ps))) in
    (rw (a, e) refl, f ∙ ap (λ s. s ++ join ps) c ∙ append_assoc w.writer.sent p (join ps))

-- The bytes of the first frame, before what is written after it.
pub frame_lem :
    (u x y : Bytes)
    → first_frame u x ++ y ≡ u ++ bytes_of (last 0x01 x (replicate (xtls_padding (length x)) 0) y)
unfolding first_frame bytes_of head_bytes
frame_lem u x y = simp (append_assoc, length-replicate {A = ℕ} (xtls_padding (length x)) 0) refl

pub written_lem :
    (u p : Bytes) (ps : List Bytes)
    → first_frame u (take vision_max_content p) ++ (drop vision_max_content p ++ join ps)
      ≡ u ++ bytes_of (written p ps)
unfolding written
written_lem u p ps = frame_lem u (take vision_max_content p) (drop vision_max_content p ++ join ps)

regroup : (a b c d : Bytes) → ((a ++ b) ++ c) ++ d ≡ a ++ (b ++ (c ++ d))
regroup a b c d = simp append_assoc refl

pub length-three : (a b c : Bytes) → length (a ++ (b ++ c)) ≡ length a + length b + length c
length-three a b c = omega (arith, length-append a (b ++ c), length-append b c)

-- A new writer whose connection has the room accepts every slice whole, and sends one frame, which
-- holds the first 16384 bytes of the first slice, is padded to a multiple of 64 bytes and ends the
-- framing, and then the rest as it is.
pub write_all-sends :
    (u s : Bytes) (room : ℕ) (p : Bytes) (ps : List Bytes)
    → length (u ++ bytes_of (written p ps)) ≤ room
    → let out = write_all (p ∷ ps) (new_vision_writer (record { sent = s; room = room }) u) in
      (out.0 ≡ map (λ q. (length q, true)) (p ∷ ps))
      × (out.1.writer.sent ≡ s ++ (u ++ bytes_of (written p ps)))
unfolding write_all new_vision_writer
write_all-sends u s room p ps h =
    let w : VisionWriter = new_vision_writer (record { sent = s; room = room }) u in
    let f = first_frame u (take vision_max_content p) in
    let d = drop vision_max_content p in
    let k : length f + length d + length (join ps) ≤ room =
      omega (arith, length-three f d (join ps), ap length (written_lem u p ps)) in
    let (a, b, c, e) = first_lem p w refl refl (omega arith) in
    let (g, i) = raw_writes ps (write p w).1 b (omega arith) in
    (
      rw (a, g) refl,
      i
          ∙ ap (λ t. t ++ join ps) c
          ∙ regroup s f d (join ps)
          ∙ ap (λ t. s ++ t) (written_lem u p ps),
    )
