-- ===== src/Vision/Response.antt =====
-- vision.go: `vlessResponseConn`, which drops the header of the backend's response on the first read.
pub mod Delivery
use proxy_balacer.Base.{
  ℕ, ◌+◌, Bytes, Bool, true, false, Option, none, some, [], ◌∷◌, ◌++◌, ltb, if◌then◌else◌, Result,
  ok, err, panic,
}
use proxy_balacer.Io.{ReadError, read_full, read_some}

pub record ResponseConn : Type 0 where
  pub conn : Bytes
  pub done : Bool
  pub header : Bytes
  pub error : Option ReadError

unfoldable pub new_response_conn : Bytes → ResponseConn
new_response_conn s = record { conn = s; done = false; header = []; error = none }

unfoldable pub take_addon : Bytes → Result ReadError (Bytes × Bytes) → ResponseConn → ResponseConn
take_addon h (ok (addon, rest)) c = record c { conn = rest; header = h ++ addon }
take_addon h (err e) c = record c { conn = []; error = some e }
take_addon h panic c = c

unfoldable pub take_header : Result ReadError (Bytes × Bytes) → ResponseConn → ResponseConn
unfolding take_addon
take_header (ok (v ∷ n ∷ [], rest)) c =
    if ltb 0 n
    then take_addon (v ∷ n ∷ []) (read_full n rest) c
    else record c { conn = rest; header = v ∷ n ∷ [] }
take_header (ok (h, rest)) c = c
take_header (err e) c = record c { conn = []; error = some e }
take_header panic c = c

-- The body of `once.Do`.
unfoldable pub once : ResponseConn → ResponseConn
unfolding take_header
once c = if c.done then c else take_header (read_full 2 c.conn) (record c { done = true })

unfoldable pub pass :
    ResponseConn → Result ReadError (Bytes × Bytes) → Result ReadError Bytes × ResponseConn
pass c (ok (xs, rest)) = (ok xs, record c { conn = rest })
pass c (err e) = (err e, record c { conn = [] })
pass c panic = (panic, c)

unfoldable pub refuse :
    Option ReadError → ℕ → ℕ → ResponseConn → Result ReadError Bytes × ResponseConn
unfolding pass
refuse (some e) n most c = (err e, c)
refuse none n most c = pass c (read_some n most c.conn)

-- `vlessResponseConn.Read` into a buffer of `n` bytes, with `most` bytes arrived.
unfoldable pub read : ℕ → ℕ → ResponseConn → Result ReadError Bytes × ResponseConn
unfolding refuse
read n most c = let d = once c in refuse d.error n most d
