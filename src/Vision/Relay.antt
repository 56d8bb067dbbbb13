-- ===== src/Vision/Relay.antt =====
-- vision.go: `VisionRelay.Relay`.
pub mod Rounds
pub mod Streams
pub mod Ends
use proxy_balacer.Base.{
  ℕ, zero, suc, ◌+◌, Bytes, Bool, true, false, Option, none, some, [], ◌++◌, drop, length,
  if◌then◌else◌, Result, ok, err, panic, min,
}
use proxy_balacer.Io.{ReadError, read_full, Conn, conn_write}
use proxy_balacer.Vision.Frames.{
  vision_header_size, vision_subsequent_header_size, FrameHead, decode_head, ends_framing,
}

-- `out_of_fuel` is no error of the code.
pub data RelayError : Type 0 where
  header payload : ReadError → RelayError
  write_frame write_raw out_of_fuel : RelayError

-- How a relay ends: the error, nil or not, with the total returned and the connection written to.
pub record Relayed : Type 0 where
  pub total : ℕ
  pub error : Option RelayError
  pub writer : Conn

-- `io.Copy` of what follows the last frame.
unfoldable pub copy_raw : ℕ → Bytes → Conn → Relayed
copy_raw total [] w = record { total = total; error = none; writer = w }
copy_raw total s w =
    let ((n, good), c) = conn_write s w in
    record { total = total + n; error = if good then none else some write_raw; writer = c }

-- The UUID of the first frame is replaced, whatever it is.
unfoldable pub set_uuid : Bool → Bytes → Bytes → Bytes
set_uuid is_first dst h = if is_first then dst ++ drop 16 h else h

unfoldable pub head_of : Bool → Bytes → Option FrameHead
head_of is_first h = decode_head (if is_first then drop 16 h else h)

unfoldable pub header_size : Bool → ℕ
header_size is_first = if is_first then vision_header_size else vision_subsequent_header_size

unfoldable pub fail : ℕ → RelayError → Conn → Relayed
fail total e w = record { total = total; error = some e; writer = w }

-- One round of the loop, which goes on with `again` after a frame and with a copy after the last one.
module _ (dst : Bytes) (again : ℕ → Bytes → Conn → Relayed) where
  unfoldable pub send_frame : FrameHead → Bytes → ℕ → Bytes → Conn → Relayed
  send_frame h frame total rest w =
      let ((n, good), c) = conn_write frame w in
      if good
      then if ends_framing h.command
        then copy_raw (total + h.content_len) rest c
        else again (total + h.content_len) rest c
      else fail total write_frame c

  unfoldable pub relay_payload :
      FrameHead → Bytes → ℕ → Conn → Result ReadError (Bytes × Bytes) → Relayed
  unfolding send_frame
  relay_payload h head total w (ok (body, rest)) = send_frame h (head ++ body) total rest w
  relay_payload h head total w (err e) = fail total (payload e) w
  relay_payload h head total w panic = fail total out_of_fuel w

  unfoldable pub relay_head : Option FrameHead → Bytes → ℕ → Bytes → Conn → Relayed
  unfolding relay_payload
  relay_head (some h) head total rest w =
      relay_payload h head total w (read_full (h.content_len + h.padding_len) rest)
  relay_head none head total rest w = fail total out_of_fuel w

  unfoldable pub relay_frame : Bool → ℕ → Conn → Result ReadError (Bytes × Bytes) → Relayed
  unfolding relay_head
  relay_frame is_first total w (ok (h, rest)) =
      relay_head (head_of is_first h) (set_uuid is_first dst h) total rest w
  relay_frame is_first total w (err e) = fail total (header e) w
  relay_frame is_first total w panic = fail total out_of_fuel w

unfoldable pub relay_loop : ℕ → Bytes → Bool → ℕ → Bytes → Conn → Relayed
unfolding relay_frame
relay_loop zero dst is_first total s w = fail total out_of_fuel w
relay_loop (suc fuel) dst is_first total s w =
    relay_frame dst (relay_loop fuel dst false) is_first total w
      (read_full (header_size is_first) s)

-- `VisionRelay.Relay`. Every round reads at least a header, so that the input bounds the rounds.
unfoldable pub relay : Bytes → Bytes → Conn → Relayed
unfolding relay_loop
relay dst s w = relay_loop (suc (length s)) dst true 0 s w
