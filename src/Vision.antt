-- ===== src/Vision.antt =====
-- vision.go: the framing of the flow xtls-rprx-vision, and the header of a VLESS response.
--
-- A reader, a writer and a relay of frames. The first frame of a stream starts with a UUID; command 1
-- or 2 in a frame ends the framing, and what follows is passed on as it is.
pub mod Frames
pub mod Reader
pub mod Writer
pub mod Relay
pub mod Response
