-- ===== src/Vision/Relay/Ends.antt =====
-- `VisionRelay.Relay` comes to an end.
use proxy_balacer.Base.{
  ℕ, zero, suc, ◌+◌, ◌≤◌, ◌<◌, ◌≡◌, ◌≢◌, refl, ap, Bytes, Bool, true, false, Option, some, [], ◌∷◌,
  ◌++◌, length, drop, arith, length-append, length-drop, Result, ok, err, panic, Bool-cases, inl,
  inr,
}
use proxy_balacer.Io.{ReadError, read_full, read_full_sound, read_full-ne-panic, Conn, conn_write}
use proxy_balacer.Vision.Frames.{FrameHead, decode_head, ends_framing}
use proxy_balacer.Vision.Relay.{
  Relayed, header, payload, write_frame, out_of_fuel, copy_raw, set_uuid, head_of, header_size,
  fail, send_frame, relay_payload, relay_head, relay_frame, relay_loop, relay,
}

-- An end that is one of the code's.
abbrev Ended : Relayed → Type 0
Ended r = r.error ≢ some out_of_fuel

copied_ends : (total : ℕ) (s : Bytes) (w : Conn) → Ended (copy_raw total s w)
unfolding copy_raw
copied_ends total [] w e = cc
copied_ends total (b ∷ s) w e = ground arith

module _ (dst : Bytes) (again : ℕ → Bytes → Conn → Relayed) (n : ℕ)
    (ih : (total : ℕ) (s : Bytes) (w : Conn) → length s < n → Ended (again total s w)) where
  send_ends :
      (h : FrameHead) (frame rest : Bytes) (total : ℕ) (w : Conn)
      → length rest < n
      → Ended (send_frame dst again h frame total rest w)
  unfolding send_frame fail
  send_ends h frame rest total w k = elim (Bool-cases (conn_write frame w).0.1) [
    | inl e ↦ elim (Bool-cases (ends_framing h.command)) [
      | inl f ↦ rw (e, f) (copied_ends (total + h.content_len) rest (conn_write frame w).1)
      | inr f ↦ rw (e, f) (ih (total + h.content_len) rest (conn_write frame w).1 k)
    ]
    | inr e ↦ rw e (λ (q : some write_frame ≡ some out_of_fuel). cc)
  ]

  payload_ends :
      (h : FrameHead) (head : Bytes) (total : ℕ) (w : Conn) (s : Bytes) (m : ℕ)
      (r : Result ReadError (Bytes × Bytes))
      → read_full m s ≡ r
      → length s < n
      → Ended (relay_payload dst again h head total w r)
  unfolding relay_payload fail
  payload_ends h head total w s m (ok (body, rest)) e k =
      let (a, b) = read_full_sound m s body rest e in
      send_ends h (head ++ body) rest total w (omega (arith, ap length a, length-append body rest))
  payload_ends h head total w s m (err f) e k = λ (q : some (payload f) ≡ some out_of_fuel). cc
  payload_ends h head total w s m panic e k = absurd (read_full-ne-panic m s e)

  head_ends :
      (d : Option FrameHead) (x : FrameHead) (head : Bytes) (total : ℕ) (rest : Bytes) (w : Conn)
      → d ≡ some x
      → length rest < n
      → Ended (relay_head dst again d head total rest w)
  unfolding relay_head
  head_ends d x head total rest w e k =
      rw e (payload_ends x head total w rest (x.content_len + x.padding_len) _ refl k)

decode_some : (h : Bytes) → length h ≡ 5 → (x : FrameHead) × (decode_head h ≡ some x)
unfolding decode_head
decode_some [] e = absurd (omega arith)
decode_some (a ∷ []) e = absurd (omega arith)
decode_some (a ∷ b ∷ []) e = absurd (omega arith)
decode_some (a ∷ b ∷ c ∷ []) e = absurd (omega arith)
decode_some (a ∷ b ∷ c ∷ d ∷ []) e = absurd (omega arith)
decode_some (a ∷ b ∷ c ∷ d ∷ f ∷ []) e = (_, refl)
decode_some (a ∷ b ∷ c ∷ d ∷ f ∷ g ∷ s) e = absurd (omega arith)

-- The header of each size has the five bytes that are decoded.
head_some :
    (is_first : Bool) (h : Bytes)
    → length h ≡ header_size is_first
    → (x : FrameHead) × (head_of is_first h ≡ some x)
unfolding head_of header_size
head_some true h e = decode_some (drop 16 h) (omega (arith, length-drop 16 h))
head_some false h e = decode_some h e

size_bound : (is_first : Bool) → 1 ≤ header_size is_first
unfolding header_size
size_bound true = omega arith
size_bound false = omega arith

frame_ends :
    (dst : Bytes) (again : ℕ → Bytes → Conn → Relayed) (n : ℕ) (is_first : Bool) (total : ℕ)
    (w : Conn) (s : Bytes) (r : Result ReadError (Bytes × Bytes))
    → ((total : ℕ) (s : Bytes) (w : Conn) → length s < n → Ended (again total s w))
    → read_full (header_size is_first) s ≡ r
    → length s ≤ n
    → Ended (relay_frame dst again is_first total w r)
unfolding relay_frame fail
frame_ends dst again n is_first total w s (ok (h, rest)) ih e k =
    let (a, b) = read_full_sound (header_size is_first) s h rest e in
    let (x, q) = head_some is_first h b in
    head_ends dst again n ih (head_of is_first h) x (set_uuid is_first dst h) total rest w q
      (omega (arith, ap length a, length-append h rest, size_bound is_first))
frame_ends dst again n is_first total w s (err f) ih e k =
    λ (q : some (header f) ≡ some out_of_fuel). cc
frame_ends dst again n is_first total w s panic ih e k =
    absurd (read_full-ne-panic (header_size is_first) s e)

loop_ends :
    (fuel : ℕ) (dst : Bytes) (is_first : Bool) (total : ℕ) (s : Bytes) (w : Conn)
    → length s < fuel
    → Ended (relay_loop fuel dst is_first total s w)
unfolding relay_loop
loop_ends zero dst is_first total s w k = absurd (omega arith)
loop_ends (suc fuel) dst is_first total s w k =
    frame_ends dst (relay_loop fuel dst false) fuel is_first total w s _
      (λ t r v j. loop_ends fuel dst false t r v j) refl (omega arith)

-- On any input, and whatever the connection takes, the relay ends within the rounds that it is given, one
-- for each byte of the input and one more: with no error, or with one of a read or of a write.
pub relay_ends : (dst s : Bytes) (w : Conn) → (relay dst s w).error ≢ some out_of_fuel
unfolding relay
relay_ends dst s w = loop_ends (suc (length s)) dst true 0 s w (omega arith)
