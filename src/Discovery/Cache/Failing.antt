-- ===== src/Discovery/Cache/Failing.antt =====
-- discovery/cache_file.rs and `reload_from_cache`: a file of which every read fails, as a directory.
use scamp_rs.Common.{
  ℕ, zero, suc, ◌+◌, ◌<◌, ◌≡◌, refl, none, [], ◌∷◌, ◌++◌, Bytes, length, length-drop, drop, take,
  is_empty, Bool-cases, Option-cases, inl, inr, arith,
}
use scamp_rs.Crypto.{Openssl}
use scamp_rs.Discovery.Cache.{
  BufReader, failing, fill, fill_buf, position, record_delimiter, Item, Next, io_error, item_of,
  item, reads_size, size, next_from, next, items_from,
}
use scamp_rs.Discovery.Parse.Result.{Reader}

abbrev broken : Bytes → BufReader
broken bs = record { buffer = bs; reads = failing }

module _ {F : Type 0} where
  -- An item comes, and the reads fail as before.
  abbrev pub GoesOn : Next F → Type 0
  GoesOn n = (i : Item F) × (bs : Bytes) × (n ≡ item i (broken bs))

module _ {F : Type 0} (o : Reader F) (c : Openssl) where
  next_from-GoesOn :
      (fuel : ℕ) (acc bs : Bytes) → length bs < fuel → GoesOn (next_from o c fuel acc (broken bs))
  unfolding next_from fill_buf fill
  next_from-GoesOn zero acc bs h = absurd (omega arith)
  next_from-GoesOn (suc fuel) acc [] h = (io_error, [], refl)
  next_from-GoesOn (suc fuel) acc (b ∷ bs) h =
      elim (Option-cases (position record_delimiter (b ∷ bs))) [
        | inl unmatched ↦
            rw (unmatched, next_from)
              (next_from-GoesOn fuel (acc ++ b ∷ bs) _
                (omega (arith, h, length-drop (length (b ∷ bs)) (b ∷ bs))))
        | inr (pos, matched) ↦ elim (Bool-cases (is_empty (acc ++ take pos (b ∷ bs)))) [
          | inl nothing ↦
              rw (matched, nothing, next_from)
                (next_from-GoesOn fuel (acc ++ take pos (b ∷ bs)) _
                  (omega (arith, h, length-drop (pos + 5) (b ∷ bs))))
          | inr something ↦ (
            item_of o c (acc ++ take pos (b ∷ bs)),
            drop (pos + 5) (b ∷ bs),
            rw (matched, something, next_from) refl,
          )
        ]
      ]

  next-GoesOn : (bs : Bytes) → GoesOn (next o c (broken bs))
  unfolding next size reads_size
  next-GoesOn bs = next_from-GoesOn (suc (length bs + 0)) [] bs (omega arith)

  -- Where every read fails the iterator never ends: each `next` gives an item and leaves a reader of
  -- which every read fails, whatever the buffer holds, so that no number of steps gives all the items.
  pub items_from_failing :
      (fuel : ℕ) (bs : Bytes)
      → GoesOn (next o c (broken bs)) × (items_from o c fuel (broken bs) ≡ none)
  unfolding items_from
  items_from_failing zero bs = (next-GoesOn bs, refl)
  items_from_failing (suc fuel) bs =
      let (i, bs', e) = next-GoesOn bs in
      let later = items_from_failing fuel bs' in ((i, bs', e), rw (e, items_from, later.1) refl)
