-- ===== src/Json.antt =====
-- `serde_json::Value` as the code takes it apart, and the JSON text codec as a parameter.
use Prim.Native.Nat.{ℕ}
use mathlib.Core.Bool.{Bool}
use mathlib.Core.Option.{Option, none, some}
use scamp_rs.Common.{◌≡◌, refl, ap, List, [], ◌∷◌, Text, Bytes, same, if◌then◌else◌}

-- A number is held as `u64`, as a negative `i64` (`neg n` is -(n + 1)) or as the bits of an `f64`.
mutual
  pub data Value : Type 0 where
    null : Value
    bool : Bool → Value
    num : ℕ → Value
    neg : ℕ → Value
    float : ℕ → Value
    str : Text → Value
    arr : Items → Value
    obj : Fields → Value

  pub data Items : Type 0 where
    nil : Items
    cons : Value → Items → Items

  -- The members of an object, in the order of the text.
  pub data Fields : Type 0 where
    end : Fields
    field : Text → Value → Fields → Fields

-- The library's text codec, `to_writer` and `from_slice`. It is not part of the repository; what a
-- theorem needs of it is that theorem's hypothesis.
pub record JsonText : Type 0 where
  pub print : Value → Bytes
  pub parse : Bytes → Option Value

-- `Map::get`.
unfoldable pub get_field : Text → Fields → Option Value
get_field k end = none
get_field k (field j v fs) = if same j k then some v else get_field k fs

-- `Value::get` with a string: a member of an object.
unfoldable pub get_member : Text → Value → Option Value
unfolding get_field
get_member k (obj fs) = get_field k fs
get_member k v = none

unfoldable pub as_bool : Value → Option Bool
as_bool (bool b) = some b
as_bool v = none

unfoldable pub as_str : Value → Option Text
as_str (str s) = some s
as_str v = none

unfoldable pub as_u64 : Value → Option ℕ
as_u64 (num n) = some n
as_u64 v = none

-- `Vec<Value>`, as an array's items.
abbrev pub to_list : Items → List Value
to_list nil = []
to_list (cons v vs) = v ∷ to_list vs

abbrev pub of_list : List Value → Items
of_list [] = nil
of_list (v ∷ vs) = cons v (of_list vs)

pub to_list-of_list : (vs : List Value) → to_list (of_list vs) ≡ vs
to_list-of_list [] = refl
to_list-of_list (v ∷ vs) = ap (λ us. v ∷ us) (to_list-of_list vs)

unfoldable pub as_array : Value → Option (List Value)
as_array (arr xs) = some (to_list xs)
as_array v = none
