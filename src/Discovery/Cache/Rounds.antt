-- ===== src/Discovery/Cache/Rounds.antt =====
-- discovery/cache_file.rs: the rounds of the loop, and when the iterator ends.
use scamp_rs.Common.{
  ℕ, zero, suc, ◌+◌, ◌<◌, ◌≤◌, ◌≡◌, refl, ◌∙◌, true, false, some, List, [], ◌∷◌, ◌++◌, Bytes,
  length, length-drop, take, is_empty, Bool-cases, Option-cases, ◌⊎◌, inl, inr, arith,
}
use scamp_rs.Crypto.{Openssl}
use scamp_rs.Discovery.Cache.{
  BufReader, Reads, ended, failing, bytes, error, ends, fill, fill_buf, consume, position,
  record_delimiter, Item, Next, io_error, item_of, finished, item, reads_size, size, next_from,
  next, items_from, items,
}
use scamp_rs.Discovery.Parse.Result.{Reader}

pub fill-size : (bs : Bytes) (rs : Reads) → size (fill bs rs).0 ≤ length bs + reads_size rs
unfolding fill size reads_size
fill-size (b ∷ bs) rs = omega arith
fill-size [] ended = omega arith
fill-size [] failing = omega arith
fill-size [] (error rs) = omega arith
fill-size [] (bytes bs rs) = omega arith

fill-ends : (bs : Bytes) (rs : Reads) → ends (fill bs rs).0.reads ≡ ends rs
unfolding fill ends
fill-ends (b ∷ bs) rs = refl
fill-ends [] ended = refl
fill-ends [] failing = refl
fill-ends [] (error rs) = refl
fill-ends [] (bytes bs rs) = refl

-- A failed read is taken off, if the file ends.
fill_failed :
    (bs : Bytes) (rs : Reads)
    → ends rs ≡ true
    → (fill bs rs).1 ≡ true
    → size (fill bs rs).0 < length bs + reads_size rs
unfolding fill size reads_size ends
fill_failed (b ∷ bs) rs h e = absurd (ground (arith, e))
fill_failed [] ended h e = absurd (ground (arith, e))
fill_failed [] failing h e = absurd (ground (arith, h))
fill_failed [] (error rs) h e = omega arith
fill_failed [] (bytes bs rs) h e = absurd (ground (arith, e))

nonempty-length : (bs : Bytes) → is_empty bs ≡ false → 0 < length bs
nonempty-length [] e = absurd (ground (arith, e))
nonempty-length (b ∷ bs) e = omega arith

-- What is consumed of a buffer with bytes leaves less.
consume-size :
    (n : ℕ) (r : BufReader) → 0 < n → is_empty r.buffer ≡ false → size (consume n r) < size r
unfolding size
consume-size n r h e = omega (arith, h, length-drop n r.buffer, nonempty-length r.buffer e)

-- One byte more is left behind the bytes `acc` of a record, that the file's end completes.
extra : Bytes → ℕ
extra [] = 0
extra (b ∷ bs) = 1

extra-le : (acc : Bytes) → extra acc ≤ 1
unfolding extra
extra-le [] = omega arith
extra-le (b ∷ bs) = omega arith

extra-some : (acc : Bytes) → is_empty acc ≡ false → extra acc ≡ 1
unfolding extra
extra-some [] e = absurd (ground (arith, e))
extra-some (b ∷ bs) e = refl

module _ {F : Type 0} where
  -- The iterator is through, or gives an item and leaves less than the bound, with an end of the file.
  abbrev EndsBelow : Next F → ℕ → Type 0
  EndsBelow n k =
      (n ≡ finished)
      ⊎ ((i : Item F) × (r : BufReader) × (n ≡ item i r) × (ends r.reads ≡ true) × (size r < k))

  EndsBelow-le : (n : Next F) (j k : ℕ) → j ≤ k → EndsBelow n j → EndsBelow n k
  EndsBelow-le n j k h (inl e) = inl e
  EndsBelow-le n j k h (inr (i, r, e, en, lt)) = inr (i, r, e, en, omega (arith, lt, h))

module _ {F : Type 0} (o : Reader F) (c : Openssl) where
  -- With more fuel than the reader has bytes and reads, the loop of `next` ends.
  next_from-EndsBelow :
      (fuel : ℕ) (acc : Bytes) (r : BufReader)
      → ends r.reads ≡ true
      → size r < fuel
      → EndsBelow (next_from o c fuel acc r) (size r + extra acc)
  unfolding next_from fill_buf size
  next_from-EndsBelow zero acc r en lt = absurd (omega arith)
  next_from-EndsBelow (suc fuel) acc r en lt =
      let (f, is_err) = fill r.buffer r.reads in
      let en' : (ends f.reads ≡ true) = fill-ends r.buffer r.reads ∙ en in
      let less : (size f ≤ size r) = fill-size r.buffer r.reads in
      let later : ((acc' : Bytes) (s : BufReader)
          → ends s.reads ≡ true
          → size s < size r
          → EndsBelow (next_from o c fuel acc' s) (size r + extra acc)) =
        λ acc' s ens smaller.
          EndsBelow-le (next_from o c fuel acc' s) (size s + extra acc') (size r + extra acc)
            (omega (arith, smaller, extra-le acc'))
            (next_from-EndsBelow fuel acc' s ens (omega (arith, smaller, lt))) in
      elim (Bool-cases is_err) [
        | inl failed ↦ inr (
          io_error,
          f,
          rw (failed, next_from) refl,
          en',
          omega (arith, fill_failed r.buffer r.reads en failed),
        )
        | inr good ↦ elim (Bool-cases (is_empty f.buffer)) [
          | inl at_end ↦ elim (Bool-cases (is_empty acc)) [
            | inl nothing ↦ inl (rw (good, at_end, nothing, next_from) refl)
            | inr something ↦ inr (
              item_of o c acc,
              f,
              rw (good, at_end, something, next_from) refl,
              en',
              omega (arith, less, extra-some acc something),
            )
          ]
          | inr more ↦ elim (Option-cases (position record_delimiter f.buffer)) [
            | inl unmatched ↦
                rw (good, more, unmatched, next_from)
                  (later (acc ++ f.buffer) (consume (length f.buffer) f) en' (
                    omega (
                      arith,
                      less,
                      consume-size (length f.buffer) f (nonempty-length f.buffer more) more,
                    )))
            | inr (pos, matched) ↦ elim (Bool-cases (is_empty (acc ++ take pos f.buffer))) [
              | inl nothing ↦
                  rw (good, more, matched, nothing, next_from)
                    (later (acc ++ take pos f.buffer) (consume (pos + 5) f) en'
                      (omega (arith, less, consume-size (pos + 5) f (omega arith) more)))
              | inr something ↦ inr (
                item_of o c (acc ++ take pos f.buffer),
                consume (pos + 5) f,
                rw (good, more, matched, something, next_from) refl,
                en',
                omega (arith, less, consume-size (pos + 5) f (omega arith) more),
              )
            ]
          ]
        ]
      ]

  next-EndsBelow : (r : BufReader) → ends r.reads ≡ true → EndsBelow (next o c r) (size r)
  unfolding next extra
  next-EndsBelow r en =
      EndsBelow-le (next o c r) (size r + 0) (size r) (omega arith)
        (next_from-EndsBelow (suc (size r)) [] r en (omega arith))

  items_from_agree :
      (f g : ℕ) (r : BufReader)
      → ends r.reads ≡ true
      → size r < f
      → size r < g
      → (is : List (Item F)) × (items_from o c f r ≡ some is) × (items_from o c g r ≡ some is)
  unfolding items_from
  items_from_agree zero g r en h k = absurd (omega arith)
  items_from_agree (suc f) zero r en h k = absurd (omega arith)
  items_from_agree (suc f) (suc g) r en h k = elim (next-EndsBelow r en) [
    | inl done ↦ ([], rw (done, items_from) refl, rw (done, items_from) refl)
    | inr (i, r', e, en', lt) ↦
        let (is, ef, eg) =
          items_from_agree f g r' en' (omega (arith, lt, h)) (omega (arith, lt, k)) in
        (i ∷ is, rw (e, items_from, ef) refl, rw (e, items_from, eg) refl)
  ]

  -- Where the reads, of which any may fail, come to an end of the file, the iterator over it ends:
  -- with more fuel than there are bytes and reads its items are a list, the one that `items` gives.
  pub items_from_total :
      (fuel : ℕ) (r : BufReader)
      → ends r.reads ≡ true
      → size r < fuel
      → (is : List (Item F)) × (items_from o c fuel r ≡ some is) × (items o c r ≡ some is)
  unfolding items
  items_from_total fuel r en lt = items_from_agree fuel (suc (size r)) r en lt (omega arith)
