-- ===== src/Strings/Lines.antt =====
-- `str::lines`, `trim`, and the cuts at the first separator: `find` with a slice, `splitn(2, …)` and
-- `split_once`.
use scamp_rs.Common.{
  ℕ, Bool, Option, none, some, List, [], ◌∷◌, ◌++◌, Text, is_empty, ◌==◌, if◌then◌else◌,
}
use scamp_rs.Strings.Split.{is_whitespace}

-- A carriage return before the line feed belongs to the end of the line.
strip_cr : Text → Text
strip_cr [] = []
strip_cr (c ∷ []) = if c == 0x0D then [] else c ∷ []
strip_cr (c ∷ d ∷ s) = c ∷ strip_cr (d ∷ s)

lines_from : Text → Text → List Text
unfolding strip_cr
lines_from part [] = if is_empty part then [] else part ∷ []
lines_from part (c ∷ s) =
    let cut = lines_from [] s in
    let more = lines_from (part ++ c ∷ []) s in if c == 0x0A then strip_cr part ∷ cut else more

unfoldable pub lines : Text → List Text
unfolding lines_from
lines = lines_from []

unfoldable pub trim_start : Text → Text
unfolding is_whitespace
trim_start [] = []
trim_start (c ∷ s) = let rest = trim_start s in if is_whitespace c then rest else c ∷ s

unfoldable pub trim_end : Text → Text
unfolding is_whitespace
trim_end [] = []
trim_end (c ∷ s) = elim (trim_end s) [
  | [] ↦ if is_whitespace c then [] else c ∷ []
  | d ∷ t ↦ c ∷ d ∷ t
]

abbrev pub trim : Text → Text
trim s = trim_end (trim_start s)

-- What stands before the first `sep`, or all of the text: `&s[..s.find(sep)]`, and the first part of
-- `split`.
unfoldable pub before_first : ℕ → Text → Text
before_first sep [] = []
before_first sep (c ∷ s) = let rest = before_first sep s in if c == sep then [] else c ∷ rest

-- The two parts at the first character that the test takes.
unfoldable pub split_once : (ℕ → Bool) → Text → Option (Text × Text)
split_once p [] = none
split_once p (c ∷ s) =
    let rest = split_once p s in
    if p c then some ([], s) else elim rest [ none ↦ none | some (t, u) ↦ some (c ∷ t, u) ]
