-- ===== src/Strings/Utf8.antt =====
-- `str::from_utf8`, `String::from_utf8_lossy` and `str::as_bytes`: texts and their UTF-8 bytes.
-- A malformed sequence ends where its longest valid start ends, as in Rust and in the Unicode
-- standard (table 3-7).
use scamp_rs.Common.{
  ℕ, ◌+◌, ◌-◌, ◌*◌, ◌/◌, ◌%◌, ◌<◌, ◌≡◌, refl, ◌&&◌, Option, none, some, List, [], ◌∷◌, ◌++◌, map,
  arith, ltb, leb, ◌==◌, if◌then◌else◌, Text, Bytes, All, unwrap_or,
}

-- Where the decoder stands: between characters, or with `wait` bytes to come, the next of them
-- between `low` and `high`.
pub data State : Type 0 where
  ready : State
  inside : (wait bits low high : ℕ) → State

-- The first byte of a character; `none` is an invalid byte.
begin : ℕ → List (Option ℕ) × State
begin b =
    if ltb b 0x80
    then (some b ∷ [], ready)
    else if leb 0xC2 b && leb b 0xDF
    then ([], inside 1 (b - 0xC0) 0x80 0xBF)
    else if leb 0xE0 b && leb b 0xEF
    then (
      [],
      inside 2 (b - 0xE0) (if b == 0xE0 then 0xA0 else 0x80) (if b == 0xED then 0x9F else 0xBF),
    )
    else if leb 0xF0 b && leb b 0xF4
    then (
      [],
      inside 3 (b - 0xF0) (if b == 0xF0 then 0x90 else 0x80) (if b == 0xF4 then 0x8F else 0xBF),
    )
    else (none ∷ [], ready)

-- A byte where another is due: the characters that it completes, with `none` for a malformed
-- sequence. A byte that does not fit begins a character of its own.
step : State → ℕ → List (Option ℕ) × State
unfolding begin
step ready b = begin b
step (inside wait bits low high) b =
    if leb low b && leb b high
    then (if leb wait 1
        then (some (bits * 64 + (b - 0x80)) ∷ [], ready)
        else ([], inside (wait - 1) (bits * 64 + (b - 0x80)) 0x80 0xBF))
    else (none ∷ (begin b).0, (begin b).1)

decode : State → Bytes → List (Option ℕ)
unfolding step
decode ready [] = []
decode (inside wait bits low high) [] = none ∷ []
decode s (b ∷ bs) = (step s b).0 ++ decode (step s b).1 bs

-- Every character, if none is malformed.
collect : List (Option ℕ) → Option Text
collect [] = some []
collect (none ∷ cs) = none
collect (some c ∷ cs) = elim (collect cs) [ none ↦ none | some s ↦ some (c ∷ s) ]

-- `std::str::from_utf8`, `String::from_utf8`.
unfoldable pub from_utf8 : Bytes → Option Text
unfolding decode collect
from_utf8 bs = collect (decode ready bs)

-- `String::from_utf8_lossy`: U+FFFD for each malformed sequence.
unfoldable pub from_utf8_lossy : Bytes → Text
unfolding decode
from_utf8_lossy bs = map (λ c. unwrap_or c 0xFFFD) (decode ready bs)

encode_char : ℕ → Bytes
encode_char c =
    if ltb c 0x80
    then c ∷ []
    else if ltb c 0x800
    then (0xC0 + c / 64) ∷ (0x80 + c % 64) ∷ []
    else if ltb c 0x10000
    then (0xE0 + c / 4096) ∷ (0x80 + c / 64 % 64) ∷ (0x80 + c % 64) ∷ []
    else (0xF0 + c / 262144) ∷ (0x80 + c / 4096 % 64) ∷ (0x80 + c / 64 % 64) ∷ (0x80 + c % 64) ∷ []

-- `str::as_bytes`, `String::into_bytes`.
unfoldable pub as_bytes : Text → Bytes
unfolding encode_char
as_bytes [] = []
as_bytes (c ∷ s) = encode_char c ++ as_bytes s

abbrev pub IsAscii : Text → Type 0
IsAscii = All (λ c. c < 0x80)

decode_ascii : (s : Text) → IsAscii s → decode ready s ≡ map some s
unfolding decode
decode_ascii [] h = refl
decode_ascii (c ∷ s) h = ground (arith, decode_ascii s h.1)

collect-map : (s : Text) → collect (map some s) ≡ some s
unfolding collect
collect-map [] = refl
collect-map (c ∷ s) = ground (arith, collect-map s)

pub from_utf8_ascii : (s : Text) → IsAscii s → from_utf8 s ≡ some s
unfolding from_utf8
from_utf8_ascii s h = rw (decode_ascii s h) (collect-map s)

unwrap_or-map : (s : Text) → map (λ c. unwrap_or c 0xFFFD) (map some s) ≡ s
unwrap_or-map [] = refl
unwrap_or-map (c ∷ s) = rw (unwrap_or-map s)

pub from_utf8_lossy_ascii : (s : Text) → IsAscii s → from_utf8_lossy s ≡ s
unfolding from_utf8_lossy
from_utf8_lossy_ascii s h = rw (decode_ascii s h) (unwrap_or-map s)

pub as_bytes_ascii : (s : Text) → IsAscii s → as_bytes s ≡ s
unfolding as_bytes
as_bytes_ascii [] h = refl
as_bytes_ascii (c ∷ s) h = ground (arith, as_bytes_ascii s h.1)

euro : from_utf8 (0xE2 ∷ 0x82 ∷ 0xAC ∷ 0x41 ∷ []) ≡ some (0x20AC ∷ 0x41 ∷ [])
unfolding from_utf8
euro = refl

euro_cut : from_utf8_lossy (0xE2 ∷ 0x82 ∷ 0x41 ∷ 0xC0 ∷ []) ≡ 0xFFFD ∷ 0x41 ∷ 0xFFFD ∷ []
unfolding from_utf8_lossy
euro_cut = refl

surrogate : from_utf8 (0xED ∷ 0xA0 ∷ 0x80 ∷ []) ≡ none
unfolding from_utf8
surrogate = refl
