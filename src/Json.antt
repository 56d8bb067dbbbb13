-- ===== src/Json.antt =====
-- Decoded JSON, as `encoding/json` puts it into `interface{}`. A number is its sign, its integer part
-- and the digits behind the point. An object is its fields; the order in which they stand says nothing.
use proxy_balacer.Base.{
  ℕ, Bytes, Bool, [], Option, none, some, ◌=ᵇ◌, if◌then◌else◌, ◌≡◌, refl, arith, text_eq_iff,
}

mutual
  pub data Json : Type 0 where
    null : Json
    bool : Bool → Json
    num : Bool → ℕ → Bytes → Json
    str : Bytes → Json
    arr : Items → Json
    obj : Fields → Json

  pub data Items : Type 0 where
    nil : Items
    cons : Json → Items → Items

  pub data Fields : Type 0 where
    end : Fields
    field : Bytes → Json → Fields → Fields

-- `m[k]`.
unfoldable pub get_field : Bytes → Fields → Option Json
get_field k end = none
get_field k (field j v fs) = if j =ᵇ k then some v else get_field k fs

-- `m[k] = v`.
unfoldable pub set_field : Bytes → Json → Fields → Fields
set_field k v end = field k v end
set_field k v (field j w fs) = if j =ᵇ k then field k v fs else field j w (set_field k v fs)

-- The type assertions: `.(string)` with its flag dropped, and the others with theirs.
abbrev pub as_string : Option Json → Bytes
as_string (some (str s)) = s
as_string (some _) = []
as_string none = []

abbrev pub as_object : Option Json → Option Fields
as_object (some (obj fs)) = some fs
as_object (some _) = none
as_object none = none

abbrev pub as_array : Option Json → Option Items
as_array (some (arr xs)) = some xs
as_array (some _) = none
as_array none = none

pub get-set :
    (k j : Bytes) (v : Json) (fs : Fields)
    → get_field j (set_field k v fs) ≡ (if k =ᵇ j then some v else get_field j fs)
unfolding get_field set_field
get-set k j v end = refl
get-set k j v (field i w fs) =
    ground (arith, text_eq_iff k j, text_eq_iff i k, text_eq_iff i j, get-set k j v fs)

-- Setting a field twice is setting it once.
pub set-set :
    (k : Bytes) (v w : Json) (fs : Fields) → set_field k w (set_field k v fs) ≡ set_field k w fs
unfolding set_field
set-set k v w end = ground (arith, text_eq_iff k k)
set-set k v w (field i u fs) = ground (arith, text_eq_iff k k, text_eq_iff i k, set-set k v w fs)
