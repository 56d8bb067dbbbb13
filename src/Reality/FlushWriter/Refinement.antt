-- ===== src/Reality/FlushWriter/Refinement.antt =====
-- A `FlushWriter` is a connection with one write.
use proxy_balacer.Base.{
  ℕ, ◌≡◌, refl, ap, sym, Bytes, Bool, true, List, [], ◌∷◌, ◌++◌, map, length, append-nil,
  append_assoc,
}
use proxy_balacer.Io.{Conn, conn_write}
use proxy_balacer.Vision.Writer.Sends.{join}
use proxy_balacer.Reality.FlushWriter.{FlushWriter, new_flush_writer, write, flush}

unfoldable pub write_all : List Bytes → FlushWriter → List (ℕ × Bool) × FlushWriter
write_all [] fw = ([], fw)
write_all (p ∷ ps) fw =
    let (res, fw1) = write p fw in let (rest, fw2) = write_all ps fw1 in (res ∷ rest, fw2)

buffered :
    (ps : List Bytes) (fw : FlushWriter)
    → write_all ps fw ≡ (map (λ p. (length p, true)) ps, record fw { buf = fw.buf ++ join ps })
unfolding write_all write
buffered [] fw = ap (λ s. ([], record fw { buf = s })) (sym (append-nil fw.buf))
buffered (p ∷ ps) fw = rw (buffered ps (record fw { buf = fw.buf ++ p })) (
    ap (λ s. ((length p, true) ∷ map (λ p. (length p, true)) ps, record fw { buf = s }))
      (append_assoc fw.buf p (join ps)))

-- Whatever slices are written, every write succeeds with the length of its slice and sends nothing; the
-- flush is then one write of all of them to the connection, in order, it succeeds if and only if that
-- write does, and it leaves an empty buffer.
pub flush-write_all :
    (ps : List Bytes) (c : Conn)
    → let (outs, fw) = write_all ps (new_flush_writer c) in
      (outs ≡ map (λ p. (length p, true)) ps)
      × (fw.w ≡ c)
      × (flush fw ≡ ((conn_write (join ps) c).0.1, new_flush_writer (conn_write (join ps) c).1))
unfolding new_flush_writer flush
flush-write_all ps c = rw (buffered ps (new_flush_writer c)) (refl, refl, refl)
