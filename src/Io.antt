-- ===== src/Io.antt =====
-- The input side of a connection, as the program uses Go's `io` package: a reader is the list of the
-- bytes that it has still to deliver, and its end stands for every way in which it stops delivering.
pub mod Reads
pub mod Copy
use proxy_balacer.Base.{
  ℕ, ◌<◌, ◌≡◌, arith, Bytes, length, take, drop, ◌++◌, [], ◌∷◌, leb, if◌then◌else◌, Result, ok, err,
  panic, All, IsByte, take-append-drop, length-take, take-length_append, drop-length_append, le→leb,
  be16, length-append, put_be16, be16-put, put-be16, ◌≢◌, min, Bool, ◌-◌,
}

-- `io.EOF` and `io.ErrUnexpectedEOF`.
pub data ReadError : Type 0 where
  eof unexpected_eof : ReadError

abbrev end_error : Bytes → ReadError
end_error [] = eof
end_error (b ∷ s) = unexpected_eof

-- `io.ReadFull` on a buffer of `n` bytes.
unfoldable pub read_full : ℕ → Bytes → Result ReadError (Bytes × Bytes)
read_full n s = if leb n (length s) then ok (take n s, drop n s) else err (end_error s)

-- `binary.Read` into one byte.
unfoldable pub read_byte : Bytes → Result ReadError (ℕ × Bytes)
read_byte [] = err eof
read_byte (b ∷ s) = ok (b, s)

-- `binary.Read` into a `uint16`, in big-endian order.
unfoldable pub read_u16 : Bytes → Result ReadError (ℕ × Bytes)
read_u16 [] = err eof
read_u16 (b ∷ []) = err unexpected_eof
read_u16 (b ∷ c ∷ s) = ok (be16 b c, s)

-- A reader that holds the bytes wanted delivers them and keeps what follows.
pub read_full-append : (xs ys : Bytes) → read_full (length xs) (xs ++ ys) ≡ ok (xs, ys)
unfolding read_full
read_full-append xs ys =
    rw (le→leb (length xs) (length (xs ++ ys)) (omega (arith, length-append xs ys)))
      (ground (arith, take-length_append xs ys, drop-length_append xs ys))

-- What was read, put before the rest, is the input, and it is as long as asked.
pub read_full_sound :
    (n : ℕ) (s xs ys : Bytes) → read_full n s ≡ ok (xs, ys) → (s ≡ xs ++ ys) × (length xs ≡ n)
unfolding read_full
read_full_sound n s xs ys e = ground (arith, take-append-drop n s, length-take n s)

pub read_u16-put : (v : ℕ) (s : Bytes) → v < 65536 → read_u16 (put_be16 v ++ s) ≡ ok (v, s)
unfolding read_u16
read_u16-put v s h = ground (arith, be16-put v h)

pub read_byte_sound : (s : Bytes) (b : ℕ) (rest : Bytes) → read_byte s ≡ ok (b, rest) → s ≡ b ∷ rest
unfolding read_byte
read_byte_sound [] c rest e = cc
read_byte_sound (b ∷ s) c rest e = ground arith

-- On bytes, a word that was read is written back as it stood.
pub read_u16_sound :
    (s : Bytes) (v : ℕ) (rest : Bytes)
    → All IsByte s
    → read_u16 s ≡ ok (v, rest)
    → (s ≡ put_be16 v ++ rest) × (v < 65536)
unfolding read_u16
read_u16_sound [] v rest w e = cc
read_u16_sound (b ∷ []) v rest w e = cc
read_u16_sound (b ∷ c ∷ s) v rest w e = ground (arith, put-be16 b c)

pub read_full-ne-panic : (n : ℕ) (s : Bytes) → read_full n s ≢ panic
unfolding read_full
read_full-ne-panic n s e = ground arith

-- One `Read` into a buffer of `n` bytes of a connection on which `most` bytes have arrived.
unfoldable pub read_some : ℕ → ℕ → Bytes → Result ReadError (Bytes × Bytes)
read_some n most [] = err eof
read_some n most (b ∷ s) = ok (take (min n most) (b ∷ s), drop (min n most) (b ∷ s))

-- The output side: what has been sent, and how many more bytes go out before the connection fails.
pub record Conn : Type 0 where
  pub sent : Bytes
  pub room : ℕ

-- `net.Conn.Write`: the count of the bytes that went out, whether these are all, and the connection.
unfoldable pub conn_write : Bytes → Conn → (ℕ × Bool) × Conn
conn_write p c = (
  (min (length p) c.room, leb (length p) c.room),
  record { sent = c.sent ++ take c.room p; room = c.room - length p },
)
