-- ===== src/Tls.antt =====
-- tls.go: the server name of a TLS ClientHello. Indexing and slicing out of range is a panic, as in Go;
-- `int` does not wrap on inputs that fit in memory.
pub mod Safety
use proxy_balacer.Base.{
  ℕ, zero, suc, ◌+◌, ◌-◌, min, Bytes, Bool, true, false, ◌&&◌, not, length, take, drop, get_elem?,
  ltb, leb, ◌==◌, if◌then◌else◌, Option, none, some, Result, ok, err, panic, ◌>>=◌, be16,
}

-- One constructor for each error that the function returns. `stuck` is none of them: it says that the
-- loop over the extensions has used up its fuel.
pub data SniError : Type 0 where
  short_record not_handshake short_handshake not_client_hello short_random : SniError
  short_session short_ciphers short_compression short_extensions not_found stuck : SniError

-- `data[i]`.
at : Bytes → ℕ → Result SniError ℕ
at data' i = elim (get_elem? data' i) [ some b ↦ ok b | none ↦ panic ]

-- `binary.BigEndian.Uint16(data[i:])`.
u16_at : Bytes → ℕ → Result SniError ℕ
u16_at data' i = do hi ← at data' i; lo ← at data' (i + 1); ok (be16 hi lo)

-- `data[i:j]`.
slice : Bytes → ℕ → ℕ → Result SniError Bytes
slice data' i j =
    if leb i j && leb j (length data') then ok (take (j - i) (drop i data')) else panic

-- The name in the extension data at `pos`, if the entry is a host name that fits.
name_at : Bytes → ℕ → ℕ → Result SniError (Option Bytes)
name_at data' pos end = do
  kind ← at data' pos
  if kind == 0x00
      then (u16_at data' (pos + 3) >>= λ n.
          if ltb 0 n && leb (pos + 5 + n) end
          then (slice data' (pos + 5) (pos + 5 + n) >>= λ name. ok (some name))
          else ok none)
      else ok none

-- What one round of the loop does with the extension at `pos`: the name, or the next position.
extension_at : Bytes → ℕ → ℕ → Result SniError (Option Bytes × ℕ)
extension_at data' pos end = do
  kind ← u16_at data' pos
  n ← u16_at data' (pos + 2)
  let body = pos + 4
  if kind == 0x0000 && ltb 5 n && leb (body + n) end
      then (name_at data' body end >>= λ name. ok (name, body + n))
      else ok (none, body + n)

extension_loop : ℕ → Bytes → ℕ → ℕ → Result SniError Bytes
extension_loop zero data' pos end = err stuck
extension_loop (suc fuel) data' pos end = elim (leb (pos + 4) end) [
  | true ↦ extension_at data' pos end >>= λ r. elim r.0 [
    | some name ↦ ok name
    | none ↦ extension_loop fuel data' r.1 end
  ]
  | false ↦ err not_found
]

-- The three fields of variable length between the random and the extensions.
session_end : Bytes → ℕ → Result SniError ℕ
session_end data' pos =
    if ltb (length data') (pos + 1)
    then err short_session
    else (at data' pos >>= λ n. ok (pos + (1 + n)))

ciphers_end : Bytes → ℕ → Result SniError ℕ
ciphers_end data' pos =
    if ltb (length data') (pos + 2)
    then err short_ciphers
    else (u16_at data' pos >>= λ n. ok (pos + (2 + n)))

compression_end : Bytes → ℕ → Result SniError ℕ
compression_end data' pos =
    if ltb (length data') (pos + 1)
    then err short_compression
    else (at data' pos >>= λ n. ok (pos + (1 + n)))

-- Each round moves on by four bytes at least, so one round for each byte and one more are enough.
extensions : Bytes → ℕ → Result SniError Bytes
extensions data' pos =
    if ltb (length data') (pos + 2)
    then err short_extensions
    else (u16_at data' pos >>= λ n.
        extension_loop (suc (length data')) data' (pos + 2) (min (pos + 2 + n) (length data')))

-- The checks of the record and handshake headers, and the bytes read there.
hello_start : Bytes → Result SniError ℕ
hello_start data' =
    if ltb (length data') 5
    then err short_record
    else (at data' 0 >>= λ record_type.
        if not (record_type == 0x16)
        then err not_handshake
        else if ltb (length data') (5 + 4)
        then err short_handshake
        else (at data' 5 >>= λ message.
            if not (message == 0x01)
            then err not_client_hello
            else (at data' 6 >>= λ _. at data' 7 >>= λ _. at data' 8 >>= λ _.
                if ltb (length data') (9 + 2 + 32) then err short_random else ok (9 + (2 + 32)))))

unfoldable pub extract_sni : Bytes → Result SniError Bytes
unfolding at u16_at slice name_at extension_at extension_loop session_end ciphers_end
    compression_end extensions hello_start
extract_sni data' = do
  random_end ← hello_start data'
  session ← session_end data' random_end
  ciphers ← ciphers_end data' session
  compression ← compression_end data' ciphers
  extensions data' compression
