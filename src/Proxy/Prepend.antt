-- ===== src/Proxy/Prepend.antt =====
-- proxy.go: `PrependConn`, which gives back the byte that the dispatch has read.
pub mod Delivery
use proxy_balacer.Base.{
  ℕ, ◌<◌, ◌≤◌, Bytes, [], ◌∷◌, ◌++◌, take, drop, length, min, Result, ok, err, panic,
}
use proxy_balacer.Io.{ReadError, read_some}

pub record PrependConn : Type 0 where
  pub conn : Bytes
  pub buf : Bytes

unfoldable pub pass :
    PrependConn → Result ReadError (Bytes × Bytes) → Result ReadError Bytes × PrependConn
pass c (ok (xs, rest)) = (ok xs, record c { conn = rest })
pass c (err e) = (err e, record c { conn = [] })
pass c panic = (panic, c)

unfoldable pub read_from : Bytes → ℕ → ℕ → PrependConn → Result ReadError Bytes × PrependConn
unfolding pass
read_from [] n most c = pass c (read_some n most c.conn)
read_from (b ∷ s) n most c =
    (ok (take n (b ∷ s)), record c { buf = drop (min n (length (b ∷ s))) (b ∷ s) })

-- `PrependConn.Read` into a buffer of `n` bytes, with `most` bytes arrived.
unfoldable pub read : ℕ → ℕ → PrependConn → Result ReadError Bytes × PrependConn
unfolding read_from
read n most c = read_from c.buf n most c
