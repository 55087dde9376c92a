-- ===== src/Server/Announce/Rle/Decoded.antt =====
-- discovery/service_info/parse.rs, `unrle`, on what `rle_encode_strings` and `rle_encode_numbers` of
-- service/announce.rs give.
use scamp_rs.Common.{
  every-All, lt→ltb, same→eq, ==→eq, ℕ, zero, suc, ◌+◌, ◌^◌, ◌<◌, ◌≤◌, ◌≡◌, refl, ◌∙◌, Bool, true,
  some, List, [], ◌∷◌, ◌++◌, Text, All, length, same, ◌==◌, arith,
}
use scamp_rs.Json.{Value, num, str, arr, Fields, get_field, of_list, as_u64, as_str}
use scamp_rs.Discovery.Parse.Result.{ok}
use scamp_rs.Discovery.Parse.Columns.{
  Column, text_column, u32_column, repeat_n, unrle_entry, unrle_entries, unrle, unrle_array, u32_of,
  unrle_chunk, unrle_array,
}
use scamp_rs.Server.Announce.Rle.{
  run_length, after_run, run_entry, rle_rounds, rle_encode, rle_encode_strings, rle_encode_numbers,
}

module _ {T : Type 0} (eq : T → T → Bool) (value : T → Value) where
  repeat_n-after_run :
      ((a b : T) → eq a b ≡ true → a ≡ b)
      → (v : T) (ws : List T)
      → repeat_n v (run_length eq value v ws) ++ after_run eq value v ws ≡ ws
  unfolding run_length after_run repeat_n
  repeat_n-after_run sound v [] = refl
  repeat_n-after_run sound v (w ∷ ws) = ground (arith, repeat_n-after_run sound v ws, sound w v)

  after_run-length : (v : T) (ws : List T) → length (after_run eq value v ws) ≤ length ws
  unfolding after_run
  after_run-length v [] = omega arith
  after_run-length v (w ∷ ws) = ground (arith, after_run-length v ws)

  after_run-All :
      (P : T → Type 0) (v : T) (ws : List T) → All P ws → All P (after_run eq value v ws)
  unfolding after_run
  after_run-All P v [] h = h
  after_run-All P v (w ∷ ws) h = ground (arith, after_run-All P v ws)

  -- The entry of a run stands for its values.
  unrle_entry-run_entry :
      (col : Column T) (name : Text) (i : ℕ) (v : T) (n : ℕ)
      → col.from_value (value v) ≡ some v
      → unrle_entry col name i (value v) ≡ ok (v ∷ [])
      → unrle_entry col name i (run_entry eq value v (suc n)) ≡ ok (repeat_n v (suc n))
  unfolding run_entry unrle_entry unrle_chunk repeat_n as_u64
  unrle_entry-run_entry col name i v zero read single = single
  unrle_entry-run_entry col name i v (suc n) read single =
      rw (lt→ltb 1 (suc (suc n)) (omega arith), read) refl

  unrle_entries-rle_rounds :
      (col : Column T) (name : Text) (P : T → Type 0)
      → ((a b : T) → eq a b ≡ true → a ≡ b)
      → ((v : T) → P v → col.from_value (value v) ≡ some v)
      → ((i : ℕ) (v : T) → P v → unrle_entry col name i (value v) ≡ ok (v ∷ []))
      → (fuel i : ℕ) (xs : List T) → length xs ≤ fuel
      → All P xs
      → unrle_entries col name i (rle_rounds eq value fuel xs) ≡ ok xs
  unfolding rle_rounds unrle_entries repeat_n
  unrle_entries-rle_rounds col name P sound read single zero i [] h p = refl
  unrle_entries-rle_rounds col name P sound read single zero i (v ∷ xs) h p = absurd (omega arith)
  unrle_entries-rle_rounds col name P sound read single (suc fuel) i [] h p = refl
  unrle_entries-rle_rounds col name P sound read single (suc fuel) i (v ∷ xs) h (pv, p) =
      rw
        (
          unrle_entry-run_entry col name i v (run_length eq value v xs) (read v pv) (single i v pv),
          unrle_entries-rle_rounds col name P sound read single fuel (i + 1)
              (after_run eq value v xs) (omega (arith, after_run-length v xs))
              (after_run-All P v xs p),
          repeat_n-after_run sound v xs,
        )
        refl

-- A column of strings, encoded by `rle_encode_strings`, is decoded by `unrle` to the same strings,
-- whether the column is required or not and whatever length a missing one would have.
pub unrle-rle_encode_strings :
    (name : Text) (fields : Fields) (required : Bool) (len : ℕ) (xs : List Text)
    → get_field name fields ≡ some (arr (of_list (rle_encode_strings xs)))
    → unrle text_column name fields required len ≡ ok xs
unfolding rle_encode_strings rle_encode unrle_entry as_str
unrle-rle_encode_strings name fields required len xs e =
    unrle_array text_column name fields required len (rle_encode_strings xs) e
    ∙ unrle_entries-rle_rounds same str text_column name (λ s. Unit {0}) same→eq (λ s t. refl)
        (λ i s t. refl) (length xs) 0 xs (omega arith) (every-All (λ s. Unit {0}) xs (λ s. tt))

-- A column of numbers below 2^32, encoded by `rle_encode_numbers`, is decoded by `unrle` to the same
-- numbers, whether the column is required or not and whatever length a missing one would have.
pub unrle-rle_encode_numbers :
    (name : Text) (fields : Fields) (required : Bool) (len : ℕ) (xs : List ℕ)
    → All (λ n. n < 2 ^ 32) xs
    → get_field name fields ≡ some (arr (of_list (rle_encode_numbers xs)))
    → unrle u32_column name fields required len ≡ ok xs
unfolding rle_encode_numbers rle_encode unrle_entry u32_column u32_of
unrle-rle_encode_numbers name fields required len xs fits e =
    unrle_array u32_column name fields required len (rle_encode_numbers xs) e
    ∙ unrle_entries-rle_rounds ◌==◌ num u32_column name (λ n. n < 2 ^ 32) ==→eq
        (λ n lt. rw (lt→ltb n (2 ^ 32) lt) refl) (λ i n lt. rw (lt→ltb n (2 ^ 32) lt) refl)
        (length xs) 0 xs (omega arith) fits
