-- ===== src/Discovery/Parse/Columns.antt =====
-- discovery/service_info/parse.rs, `unrle`: a run-length encoded column.
use scamp_rs.Common.{
  ◌≡◌, ap, ℕ, zero, suc, ◌+◌, ◌^◌, Bool, Option, none, some, List, [], ◌∷◌, ◌++◌, Text, length, ltb,
  if◌then◌else◌,
}
use scamp_rs.Json.{
  Value, num, arr, Fields, get_field, as_str, as_u64, to_list, of_list, to_list-of_list,
}
use scamp_rs.Discovery.Parse.Result.{
  missing_field, rle_value, rle_repeat_count, rle_chunk_len, Parsed, ok, err, ◌>>=◌, ok_or,
}

-- The element type of a column: `T::default()` and `from_value`.
pub record Column (T : Type 0) : Type 0 where
  pub default : T
  pub from_value : Value → Option T

unfoldable pub u32_of : Value → Option ℕ
u32_of (num n) = if ltb n (2 ^ 32) then some n else none
u32_of v = none

abbrev pub text_column : Column Text
text_column = record { default = []; from_value = as_str }

unfoldable pub u32_column : Column ℕ
unfolding u32_of
u32_column = record { default = 0; from_value = u32_of }

-- `repeat_n`.
unfoldable pub repeat_n {ℓ} : {A : Type ℓ} → A → ℕ → List A
repeat_n a zero = []
repeat_n a (suc n) = a ∷ repeat_n a n

module _ {T : Type 0} (col : Column T) (name : Text) where
  -- An entry that is an array.
  unfoldable pub unrle_chunk : ℕ → List Value → Parsed (List T)
  unfolding repeat_n
  unrle_chunk i (count ∷ value ∷ []) = do
    repeat ← ok_or (rle_repeat_count name i) (as_u64 count)
    v ← ok_or (rle_value name i) (col.from_value value)
    ok (repeat_n v repeat)
  unrle_chunk i xs = err (rle_chunk_len name i (length xs))

  unfoldable pub unrle_entry : ℕ → Value → Parsed (List T)
  unrle_entry i (arr xs) = unrle_chunk i (to_list xs)
  unrle_entry i v = do value ← ok_or (rle_value name i) (col.from_value v); ok (value ∷ [])

  unfoldable pub unrle_entries : ℕ → List Value → Parsed (List T)
  unrle_entries i [] = ok []
  unrle_entries i (entry ∷ rest) = do
    out ← unrle_entry i entry
    more ← unrle_entries (i + 1) rest
    ok (out ++ more)

  unfoldable unrle_value : ℕ → Value → Parsed (List T)
  unfolding repeat_n
  unrle_value len (arr xs) = unrle_entries 0 (to_list xs)
  unrle_value len v = do
    value ← ok_or (rle_value name 0) (col.from_value v)
    ok (repeat_n value len)

  -- `unrle`: the column `name` of an object.
  unfoldable pub unrle : Fields → Bool → ℕ → Parsed (List T)
  unfolding unrle_value repeat_n
  unrle fields required len = elim (get_field name fields) [
    | none ↦ if required then err (missing_field name) else ok (repeat_n col.default len)
    | some v ↦ unrle_value len v
  ]

  -- A column that is an array.
  pub unrle_array :
      (fields : Fields) (required : Bool) (len : ℕ) (xs : List Value)
      → get_field name fields ≡ some (arr (of_list xs))
      → unrle fields required len ≡ unrle_entries 0 xs
  unfolding unrle unrle_value
  unrle_array fields required len xs e = rw (e, unrle) (ap (unrle_entries 0) (to_list-of_list xs))
