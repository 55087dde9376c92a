-- ===== src/Server/Announce/Rle.antt =====
-- service/announce.rs: run-length encoded columns.
pub mod Decoded
use scamp_rs.Common.{
  ℕ, zero, suc, ◌+◌, ◌*◌, ◌/◌, ◌%◌, ◌^◌, Bool, true, false, not, ◌&&◌, ◌||◌, Option, none, some,
  List, [], ◌∷◌, ◌++◌, map, Text, Bytes, codes, length, is_empty, same, ltb, leb, ◌==◌,
  if◌then◌else◌,
}
use scamp_rs.Common.{retain}
use scamp_rs.Json.{Value, null, num, str, arr, obj, end, field, of_list}
use scamp_rs.Proto.Header.Fields.{write_i32}
use scamp_rs.Server.{RegisteredAction}
use scamp_rs.Strings.Decimal.{parse_unsigned}
use scamp_rs.Strings.Fields.{rsplit_once, joined_by}

-- The items equal to `v` that a list starts with, and what comes behind them.
module _ {T : Type 0} (eq : T → T → Bool) (value : T → Value) where
  unfoldable run_length : T → List T → ℕ
  run_length v [] = 0
  run_length v (w ∷ ws) = let rest = run_length v ws in if eq w v then suc rest else 0

  unfoldable after_run : T → List T → List T
  after_run v [] = []
  after_run v (w ∷ ws) = let rest = after_run v ws in if eq w v then rest else w ∷ ws

  -- A bare value, or a count and a value.
  unfoldable run_entry : T → ℕ → Value
  run_entry v count = if ltb 1 count then arr (of_list (num count ∷ value v ∷ [])) else value v

  -- The outer loop; a round takes one item at least.
  unfoldable rle_rounds : ℕ → List T → List Value
  unfolding run_length after_run run_entry
  rle_rounds zero items = []
  rle_rounds (suc fuel) [] = []
  rle_rounds (suc fuel) (v ∷ items) =
      run_entry v (suc (run_length v items)) ∷ rle_rounds fuel (after_run v items)

  unfoldable pub rle_encode : List T → List Value
  unfolding rle_rounds
  rle_encode items = rle_rounds (length items) items

unfoldable pub rle_encode_strings : List Text → List Value
unfolding rle_encode
rle_encode_strings = rle_encode same str

unfoldable pub rle_encode_numbers : List ℕ → List Value
unfolding rle_encode
rle_encode_numbers = rle_encode ◌==◌ num
