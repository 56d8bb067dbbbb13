-- ===== src/Base.antt =====
-- The names that the components share: those of the libraries, and the helpers of the children.
mod Tests
mod Lists
mod Text
mod Results
mod Words
mod Atoi
mod Dict
mod Decimal
pub use Tests.*
pub use Lists.*
unfoldable pub use Text.{◌=ᵇ◌, has_prefix}
pub use Text.{Bytes, IsByte, codes, text_eq_sound, text_eq_refl, text_eq_iff, has_prefix-append}
pub use Results.*
unfoldable pub use Decimal.{decimal}
pub use Decimal.{decimal-injective, IsDigit, decimal-IsDigit, length-decimal}
unfoldable pub use Dict.{lookup, insert, remove}
pub use Dict.{lookup-insert, lookup-remove}
unfoldable pub use Atoi.{atoi, print_int}
pub use Atoi.{ℤ, pos, negsuc, with_sign, atoi-decimal}
pub use Words.*
pub use Prim.Native.Nat.{ℕ, zero, suc, ◌+◌, ◌-◌, ◌*◌, ◌/◌, ◌%◌, ◌^◌, ◌≤◌, ◌<◌, min}
pub use mathlib.Core.Path.{◌≡◌, refl, sym, ap, ◌∙◌, subst}
pub use mathlib.Core.Logic.{◌≢◌, ◌↔◌, ◌⊎◌, inl, inr}
pub use mathlib.Core.Bool.{Bool, true, false, ◌&&◌, ◌||◌, not}
unfoldable pub use mathlib.Core.Bool.{xor}
pub use mathlib.Core.Option.{Option, none, some}
pub use mathlib.Core.List.{List, [], ◌∷◌, ◌++◌, map, append-nil, append_assoc}
pub use native.Mathlib.Omega.{arith}
