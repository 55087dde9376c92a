-- ===== src/Strings/Decimal.antt =====
-- `u64::to_string`, `str::parse::<u64>` and `str::parse::<i64>`: decimal numbers in texts.
use native.Mathlib.Nat.{pow-suc}
use scamp_rs.Common.{
  ℕ, zero, suc, ◌+◌, ◌-◌, ◌*◌, ◌/◌, ◌%◌, ◌^◌, ◌≤◌, ◌<◌, ◌≡◌, ◌≢◌, refl, ◌∙◌, ◌&&◌, Option, none,
  some, [], ◌∷◌, arith, ltb, leb, ◌==◌, if◌then◌else◌, Text, length, All,
}
use scamp_rs.Common.Words.{u64_mod}

abbrev pub IsDigit : ℕ → Type 0
IsDigit c = (b'0' ≤ c) × (c ≤ b'9')

-- The digits of `n` before `out`; one round to a digit.
emit : ℕ → ℕ → Text → Text
emit zero n out = out
emit (suc fuel) n out =
    let rest = emit fuel (n / 10) ((b'0' + n % 10) ∷ out) in
    if ltb n 10 then (b'0' + n) ∷ out else rest

-- `n.to_string()`. The rounds divide `n` by ten, so `n + 1` of them are enough.
unfoldable pub to_string : ℕ → Text
unfolding emit
to_string n = emit (suc n) n []

-- The digits, with `checked_mul` and `checked_add` against the greatest value.
unfoldable pub digits : ℕ → ℕ → Text → Option ℕ
digits limit acc [] = some acc
digits limit acc (c ∷ s) =
    let next = acc * 10 + (c - b'0') in
    let rest = digits limit next s in
    if leb b'0' c && leb c b'9' then if leb next limit then rest else none else none

-- `from_str_radix` of an unsigned type: an optional plus sign, then one digit or more.
unfoldable pub parse_unsigned : ℕ → Text → Option ℕ
unfolding digits
parse_unsigned limit [] = none
parse_unsigned limit (c ∷ []) = digits limit 0 (c ∷ [])
parse_unsigned limit (c ∷ d ∷ s) =
    if c == b'+' then digits limit 0 (d ∷ s) else digits limit 0 (c ∷ d ∷ s)

abbrev pub u64_max : ℕ
u64_max = 2 ^ 64 - 1

unfoldable pub parse_u64 : Text → Option ℕ
parse_u64 = parse_unsigned u64_max

-- Digits behind a minus sign: the pattern of the negated value, if it fits.
negate : Option ℕ → Option ℕ
negate none = none
negate (some n) = some ((u64_mod - n) % u64_mod)

-- `str::parse::<i64>`, as a bit pattern.
unfoldable pub parse_i64 : Text → Option ℕ
unfolding parse_unsigned negate
parse_i64 [] = none
parse_i64 (c ∷ []) = digits (2 ^ 63 - 1) 0 (c ∷ [])
parse_i64 (c ∷ d ∷ s) =
    if c == b'-'
    then negate (digits (2 ^ 63) 0 (d ∷ s))
    else parse_unsigned (2 ^ 63 - 1) (c ∷ d ∷ s)

-- Every round puts digits before digits.
emit-All : (f n : ℕ) (out : Text) → n < f → All IsDigit out → All IsDigit (emit f n out)
unfolding emit
emit-All zero n out h d = absurd (omega arith)
emit-All (suc f) n out h d = ground (arith, emit-All f (n / 10) ((b'0' + n % 10) ∷ out))

emit-ne-nil : (f n : ℕ) (out : Text) → n < f → emit f n out ≢ []
unfolding emit
emit-ne-nil zero n out h = absurd (omega arith)
emit-ne-nil (suc f) n out h = ground (arith, emit-ne-nil f (n / 10) ((b'0' + n % 10) ∷ out))

-- A printed number is digits alone.
pub to_string-All : (n : ℕ) → All IsDigit (to_string n)
unfolding to_string
to_string-All n = emit-All (suc n) n [] (omega arith) tt

pub to_string-ne-nil : (n : ℕ) → to_string n ≢ []
unfolding to_string
to_string-ne-nil n = emit-ne-nil (suc n) n [] (omega arith)

-- Reading the digits of `n` first brings the reader to `n`.
digits-emit :
    (limit f n : ℕ) (out : Text)
    → n < f
    → n ≤ limit
    → digits limit 0 (emit f n out) ≡ digits limit n out
unfolding emit digits
digits-emit limit zero n out h fits = absurd (omega arith)
digits-emit limit (suc f) n out h fits =
    ground (arith, digits-emit limit f (n / 10) ((b'0' + n % 10) ∷ out))

digits-to_string : (limit n : ℕ) → n ≤ limit → digits limit 0 (to_string n) ≡ some n
unfolding to_string digits
digits-to_string limit n h = digits-emit limit (suc n) n [] (omega arith) h

parse_unsigned-digits :
    (limit : ℕ) (s : Text) → s ≢ [] → All IsDigit s → parse_unsigned limit s ≡ digits limit 0 s
unfolding parse_unsigned
parse_unsigned-digits limit [] h d = absurd (h refl)
parse_unsigned-digits limit (c ∷ []) h d = refl
parse_unsigned-digits limit (c ∷ e ∷ s) h d = ground arith

-- A number that fits is read back from its decimal print.
pub parse_unsigned-to_string :
    (limit n : ℕ) → n ≤ limit → parse_unsigned limit (to_string n) ≡ some n
parse_unsigned-to_string limit n h =
    parse_unsigned-digits limit (to_string n) (to_string-ne-nil n) (to_string-All n)
    ∙ digits-to_string limit n h

-- What was read does not exceed the type's greatest value.
digits-le :
    (limit acc : ℕ) (s : Text) {r : ℕ} → acc ≤ limit → digits limit acc s ≡ some r → r ≤ limit
unfolding digits
digits-le limit acc [] h e = ground arith
digits-le limit acc (c ∷ s) {r} h e =
    ground (arith, digits-le limit (acc * 10 + (c - b'0')) s {r = r})

pub parse_unsigned-le : (limit : ℕ) (s : Text) {r : ℕ} → parse_unsigned limit s ≡ some r → r ≤ limit
unfolding parse_unsigned
parse_unsigned-le limit [] e = absurd (ground arith)
parse_unsigned-le limit (c ∷ []) e = digits-le limit 0 (c ∷ []) (omega arith) e
parse_unsigned-le limit (c ∷ d ∷ s) {r} e = ground (
  arith,
  digits-le limit 0 (d ∷ s) {r = r} (omega arith),
  digits-le limit 0 (c ∷ d ∷ s) {r = r} (omega arith),
)

emit-length :
    (f n k : ℕ) (out : Text) → n < f → n < 10 ^ suc k → length (emit f n out) ≤ suc k + length out
unfolding emit
emit-length zero n k out h fits = absurd (omega arith)
emit-length (suc f) n zero out h fits = ground (arith, pow-suc 10 0)
emit-length (suc f) n (suc k) out h fits =
    ground (arith, pow-suc 10 (suc k), emit-length f (n / 10) k ((b'0' + n % 10) ∷ out))

-- A number of at most `k` digits takes at most `k` bytes.
pub length-to_string : (n k : ℕ) → n < 10 ^ suc k → length (to_string n) ≤ suc k
unfolding to_string
length-to_string n k h = omega (arith, emit-length (suc n) n k [] (omega arith) h)

parse_i64_digits : (s : Text) → s ≢ [] → All IsDigit s → parse_i64 s ≡ parse_unsigned (2 ^ 63 - 1) s
unfolding parse_i64
parse_i64_digits [] h d = absurd (h refl)
parse_i64_digits (c ∷ []) h d = refl
parse_i64_digits (c ∷ e ∷ s) h d = ground arith

-- A nonnegative `i64` is read back from its decimal print.
pub parse_i64-to_string : (n : ℕ) → n ≤ 2 ^ 63 - 1 → parse_i64 (to_string n) ≡ some n
parse_i64-to_string n h =
    parse_i64_digits (to_string n) (to_string-ne-nil n) (to_string-All n)
    ∙ parse_unsigned-to_string (2 ^ 63 - 1) n h

pub parse_u64-to_string : (n : ℕ) → n < u64_mod → parse_u64 (to_string n) ≡ some n
unfolding parse_u64
parse_u64-to_string n h = parse_unsigned-to_string u64_max n (omega arith)

pub parse_u64-lt : (s : Text) {r : ℕ} → parse_u64 s ≡ some r → r < u64_mod
unfolding parse_u64
parse_u64-lt s e = omega (arith, parse_unsigned-le u64_max s e)
