-- ===== src/Reality/FlushWriter.antt =====
-- reality.go: `FlushWriter`.
pub mod Refinement
use proxy_balacer.Base.{ℕ, Bytes, Bool, true, [], ◌++◌, length}
use proxy_balacer.Io.{Conn, conn_write}
use proxy_balacer.Vless.Header.{VlessHeader, write_header}

pub record FlushWriter : Type 0 where
  pub w : Conn
  pub buf : Bytes

unfoldable pub new_flush_writer : Conn → FlushWriter
new_flush_writer w = record { w = w; buf = [] }

-- The count and whether the error is nil, which it always is.
unfoldable pub write : Bytes → FlushWriter → (ℕ × Bool) × FlushWriter
write p fw = ((length p, true), record fw { buf = fw.buf ++ p })

unfoldable pub flush : FlushWriter → Bool × FlushWriter
flush fw = let ((n, good), c) = conn_write fw.buf fw.w in (good, record { w = c; buf = [] })

-- `WriteVLESSHeader` into a new `FlushWriter`, which takes every write, and its flush, whose error both
-- callers drop.
unfoldable pub send_header : VlessHeader → Conn → Conn
unfolding flush write new_flush_writer
send_header h c = (flush (write (write_header h) (new_flush_writer c)).1).1.w
