-- ===== src/Base/Words.antt =====
-- 16-bit words in big-endian order, as `binary.BigEndian` reads and writes them.
use Prim.Native.Nat.{ℕ, ◌+◌, ◌*◌, ◌/◌, ◌%◌, ◌<◌}
use mathlib.Core.Path.{◌≡◌}
use mathlib.Core.List.{[], ◌∷◌}
use native.Mathlib.Omega.{arith}
use proxy_balacer.Base.Text.{Bytes, IsByte}

abbrev pub be16 : ℕ → ℕ → ℕ
be16 hi lo = hi * 256 + lo

abbrev pub put_be16 : ℕ → Bytes
put_be16 v = (v / 256 % 256) ∷ (v % 256) ∷ []

pub be16-put : (v : ℕ) → v < 65536 → be16 (v / 256 % 256) (v % 256) ≡ v
be16-put v h = omega arith

pub put-be16 :
    (hi lo : ℕ)
    → IsByte hi
    → IsByte lo
    → ((be16 hi lo) / 256 % 256 ≡ hi) × ((be16 hi lo) % 256 ≡ lo)
put-be16 hi lo h k = omega arith
