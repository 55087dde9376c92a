-- ===== src/Server/Announce/Wrap.antt =====
-- service/announce.rs, `base64_encode_wrapped`: lines of a width.
use scamp_rs.Common.{ℕ, suc, ◌%◌, ◌&&◌, [], ◌∷◌, ◌++◌, Text, ltb, ◌==◌, if◌then◌else◌}

-- The characters behind `i` others.
unfoldable pub wrap_from : ℕ → ℕ → Text → Text
wrap_from width i [] = []
wrap_from width i (c ∷ s) =
    let rest = wrap_from width (suc i) s in
    if ltb 0 i && (i % width == 0) then 0x0A ∷ c ∷ rest else c ∷ rest

-- The encoded text, wrapped, with a last line feed.
unfoldable pub wrapped : Text → ℕ → Text
unfolding wrap_from
wrapped encoded width = wrap_from width 0 encoded ++ 0x0A ∷ []
