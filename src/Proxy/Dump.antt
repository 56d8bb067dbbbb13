-- ===== src/Proxy/Dump.antt =====
-- proxy.go, lines 235-254: the header written into an array of 64 bytes for the log.
pub mod Bound
use proxy_balacer.Base.{
  ℕ, ◌+◌, ◌%◌, ◌/◌, Bytes, [], ◌∷◌, ◌++◌, length, ltb, leb, if◌then◌else◌, Result, ok, err, panic,
  ◌>>=◌,
}
use proxy_balacer.Vless.Header.{VlessHeader}

-- `hdrBuf[hdrN] = b; hdrN++`, where `s` is what has been written.
unfoldable pub put : ℕ → Bytes → Result (Unit {0}) Bytes
put b s = if ltb (length s) 64 then ok (s ++ (b ∷ [])) else panic

-- `copy(hdrBuf[hdrN:hdrN+len(xs)], xs); hdrN += len(xs)`.
unfoldable pub copy_in : Bytes → Bytes → Result (Unit {0}) Bytes
copy_in xs s = if leb (length s + length xs) 64 then ok (s ++ xs) else panic

unfoldable pub copy_addon : Bytes → Bytes → Result (Unit {0}) Bytes
unfolding copy_in
copy_addon addon s = if ltb 0 (length addon) then copy_in addon s else ok s

-- The bytes that are logged, or a panic for an index out of range.
unfoldable pub dump : VlessHeader → Result (Unit {0}) Bytes
unfolding put copy_in copy_addon
dump h = do
  s₁ ← put h.version []
  s₂ ← copy_in h.uuid s₁
  s₃ ← put (length h.addon % 256) s₂
  s₄ ← copy_addon h.addon s₃
  s₅ ← put h.cmd s₄
  s₆ ← put (h.port / 256 % 256) s₅
  s₇ ← put (h.port % 256) s₆
  s₈ ← put h.atyp s₇
  s₉ ← put (length h.addr % 256) s₈
  copy_in h.addr s₉
