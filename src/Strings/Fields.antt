-- ===== src/Strings/Fields.antt =====
-- `str::split` at a character, `rfind` and `rsplit_once`, and `join`.
pub mod Laws
use scamp_rs.Common.{ℕ, Option, none, some, List, [], ◌∷◌, ◌++◌, Text, ◌==◌, if◌then◌else◌}

-- `str::split` at a character; `part` is what was read of the current part.
unfoldable pub split_from : ℕ → Text → Text → List Text
split_from sep part [] = part ∷ []
split_from sep part (c ∷ s) =
    let cut = split_from sep [] s in
    let more = split_from sep (part ++ c ∷ []) s in if c == sep then part ∷ cut else more

abbrev pub split : ℕ → Text → List Text
split sep = split_from sep []

-- `&s[..s.rfind(sep)?]`: what stands before the last `sep`.
unfoldable pub before_last : ℕ → Text → Option Text
before_last sep [] = none
before_last sep (c ∷ s) = elim (before_last sep s) [
  | some t ↦ some (c ∷ t)
  | none ↦ if c == sep then some [] else none
]

-- `s.rsplit_once(sep)`.
unfoldable pub rsplit_once : ℕ → Text → Option (Text × Text)
rsplit_once sep [] = none
rsplit_once sep (c ∷ s) = elim (rsplit_once sep s) [
  | some (t, u) ↦ some (c ∷ t, u)
  | none ↦ if c == sep then some ([], s) else none
]

-- `ws.join(sep)`.
abbrev pub joined_by : ℕ → List Text → Text
joined_by sep [] = []
joined_by sep (w ∷ []) = w
joined_by sep (w ∷ v ∷ ws) = w ++ sep ∷ joined_by sep (v ∷ ws)
