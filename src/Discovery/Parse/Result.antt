-- ===== src/Discovery/Parse/Result.antt =====
-- discovery/service_info/parse.rs: the errors of the parser and the crates it calls.
use scamp_rs.Common.{ℕ, Bool, Option, none, some, Text}
use scamp_rs.Json.{Value}

-- `ServiceInfoParseError`; the errors of serde_json that two of its variants hold are left out.
pub data ParseFailure : Type 0 where
  expected_json_array invalid_root_array json_error : ParseFailure
  missing_field invalid_field : Text → ParseFailure
  rle_value rle_repeat_count : Text → ℕ → ParseFailure
  rle_chunk_len : Text → ℕ → ℕ → ParseFailure
  invalid_v3_namespace : ℕ → ParseFailure
  invalid_v3_action : ℕ → ℕ → Text → ParseFailure

-- What a parser comes to: a value, an error, or a panic of the task.
pub data Parsed {ℓ} (A : Type ℓ) : Type ℓ where
  ok : A → Parsed A
  err : ParseFailure → Parsed A
  panics : Parsed A

infixl 5 ◌>>=◌
abbrev pub ◌>>=◌ {ℓ κ} : {A : Type ℓ} {B : Type κ} → Parsed A → (A → Parsed B) → Parsed B
ok a >>= f = f a
err e >>= f = err e
panics >>= f = panics

-- `option.ok_or(e)?`
abbrev pub ok_or {ℓ} : {A : Type ℓ} → ParseFailure → Option A → Parsed A
ok_or e none = err e
ok_or e (some a) = ok a

-- The crates the parser uses: `serde_json::from_str`, the regex class `\d`, lower case, and `as_f64`
-- by the kinds of a number.
pub record Reader (F : Type 0) : Type 0 where
  pub from_str : Text → Option Value
  pub is_digit : ℕ → Bool
  pub to_lowercase : Text → Text
  pub f64_of_u64 : ℕ → F
  pub f64_of_negative : ℕ → F
  pub f64_of_bits : ℕ → F
