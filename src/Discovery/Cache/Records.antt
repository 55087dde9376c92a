-- ===== src/Discovery/Cache/Records.antt =====
-- discovery/cache_file.rs: the records of a file, as the iterator gives them.
use scamp_rs.Common.{
  ℕ, zero, suc, ◌+◌, ◌<◌, ◌≤◌, ◌≡◌, refl, sym, ap, ◌∙◌, true, false, Option, none, some, List, [],
  ◌∷◌, ◌++◌, append_assoc, map, Bytes, length, length-append, take, drop, take-length-append,
  drop-length-append, is_empty, starts_with, Bool-cases, Option-cases, inl, inr, All, ◌==◌, ◌&&◌,
  arith,
}
use scamp_rs.Crypto.{Openssl}
use scamp_rs.Discovery.Cache.{
  BufReader, Reads, ended, bytes, fill, fill_buf, consume, position, record_delimiter, Item, Next,
  finished, item, item_of, size, next_from, next, items_from, items, reads_size,
}
use scamp_rs.Discovery.Cache.Rounds.{fill-size}
use scamp_rs.Discovery.Parse.Result.{Reader}

-- A record has bytes, and the delimiter behind it is the first one.
abbrev pub IsRecord : Bytes → Type 0
IsRecord w =
    (is_empty w ≡ false) × (position record_delimiter (w ++ record_delimiter) ≡ some (length w))

abbrev pub file_of : List Bytes → Bytes
file_of [] = []
file_of (w ∷ ws) = w ++ (record_delimiter ++ file_of ws)

starts_with-append :
    (p xs ys : Bytes) → length p ≤ length xs → starts_with p (xs ++ ys) ≡ starts_with p xs
unfolding starts_with
starts_with-append [] xs ys h = refl
starts_with-append (c ∷ p) [] ys h = absurd (omega arith)
starts_with-append (c ∷ p) (x ∷ xs) ys h =
    ap (λ b. x == c && b) (starts_with-append p xs ys (omega arith))

starts_with-length : (p xs : Bytes) → starts_with p xs ≡ true → length p ≤ length xs
unfolding starts_with
starts_with-length [] xs h = omega arith
starts_with-length (c ∷ p) [] h = absurd (ground (arith, h))
starts_with-length (c ∷ p) (x ∷ xs) h = ground (arith, h, starts_with-length p xs)

position-length : (p xs : Bytes) {n : ℕ} → position p xs ≡ some n → length p ≤ length xs
unfolding position
position-length p [] h = absurd (ground (arith, h))
position-length p (x ∷ xs) {n} h = elim (Bool-cases (starts_with p (x ∷ xs))) [
  | inl here ↦ starts_with-length p (x ∷ xs) here
  | inr later ↦ elim (Option-cases (position p xs)) [
    | inl nowhere ↦ absurd (ground (arith, (rw (later, nowhere, position) at h)))
    | inr (i, there) ↦ omega (arith, position-length p xs there)
  ]
]

-- The first match stays the first one whatever follows.
position-append :
    (p xs ys : Bytes) {n : ℕ} → position p xs ≡ some n → position p (xs ++ ys) ≡ position p xs
unfolding position
position-append p [] ys h = absurd (ground (arith, h))
position-append p (x ∷ xs) ys {n} h = elim (Bool-cases (starts_with p (x ∷ xs))) [
  | inl here ↦ rw (starts_with-append p (x ∷ xs) ys (starts_with-length p (x ∷ xs) here), here) refl
  | inr later ↦ elim (Option-cases (position p xs)) [
    | inl nowhere ↦ absurd (ground (arith, (rw (later, nowhere, position) at h)))
    | inr (i, there) ↦
        rw
          (
            starts_with-append p (x ∷ xs) ys (position-length p (x ∷ xs) h),
            later,
            position-append p xs ys there,
          )
          refl
  ]
]

fill_nonempty :
    (bs : Bytes) (rs : Reads)
    → is_empty bs ≡ false
    → fill bs rs ≡ (record { buffer = bs; reads = rs }, false)
unfolding fill
fill_nonempty [] rs h = absurd (ground (arith, h))
fill_nonempty (b ∷ bs) rs h = refl

delimited :
    (w rest : Bytes)
    → position record_delimiter (w ++ record_delimiter) ≡ some (length w)
    → position record_delimiter (w ++ (record_delimiter ++ rest)) ≡ some (length w)
delimited w rest first =
    ap (position record_delimiter) (sym (append_assoc w record_delimiter rest))
    ∙ position-append record_delimiter (w ++ record_delimiter) rest first
    ∙ first

drop_record :
    (w rest : Bytes)
    → drop (length w + length record_delimiter) (w ++ (record_delimiter ++ rest)) ≡ rest
drop_record w rest =
    ap (λ n. drop n (w ++ (record_delimiter ++ rest))) (sym (length-append w record_delimiter))
    ∙ ap (drop (length (w ++ record_delimiter))) (sym (append_assoc w record_delimiter rest))
    ∙ drop-length-append (w ++ record_delimiter) rest

fill_end : (bs : Bytes) → fill bs ended ≡ (record { buffer = bs; reads = ended }, false)
unfolding fill
fill_end [] = refl
fill_end (b ∷ bs) = refl

file_of-size :
    (w : Bytes) (ws : List Bytes) (r : BufReader)
    → fill_buf r ≡ (record { buffer = file_of (w ∷ ws); reads = ended }, false)
    → length (file_of ws) < size r
unfolding size fill_buf reads_size
file_of-size w ws r filled =
    let there : ((fill r.buffer r.reads).0 ≡ record { buffer = file_of (w ∷ ws); reads = ended }) =
      ap (λ p. p.0) filled in
    let same_size : (length (file_of (w ∷ ws)) ≡ length (fill r.buffer r.reads).0.buffer) =
      ap (λ f. length f.buffer) (sym there) in
    omega (
      arith,
      fill-size r.buffer r.reads,
      same_size,
      length-append w (record_delimiter ++ file_of ws),
    )

drop_all : (bs : Bytes) → drop (length bs) bs ≡ []
drop_all [] = refl
drop_all (b ∷ bs) = drop_all bs

is_empty-append : (xs ys : Bytes) → is_empty xs ≡ false → is_empty (xs ++ ys) ≡ false
is_empty-append [] ys h = absurd (ground (arith, h))
is_empty-append (x ∷ xs) ys h = refl

module _ {F : Type 0} (o : Reader F) (c : Openssl) where
  -- A record whose delimiter is in the buffer is the next item.
  next-record :
      (w rest : Bytes) (rs : Reads) (r : BufReader)
      → IsRecord w
      → fill_buf r ≡ (record { buffer = w ++ (record_delimiter ++ rest); reads = rs }, false)
      → next o c r ≡ item (item_of o c w) (record { buffer = rest; reads = rs })
  unfolding next next_from
  next-record w rest rs r (nonempty, first) filled =
      let fine : ((fill_buf r).1 ≡ false) = ap (λ p. p.1) filled in
      let there : ((fill_buf r).0
          ≡ record { buffer = w ++ (record_delimiter ++ rest); reads = rs }) =
        ap (λ p. p.0) filled in
      rw
        (
          fine,
          there,
          next_from,
          is_empty-append w (record_delimiter ++ rest) nonempty,
          there,
          delimited w rest first,
          there,
          take-length-append w (record_delimiter ++ rest),
          nonempty,
        )
        (ap
            (λ f.
              Next.item (item_of o c (take (length w) f.buffer))
                (consume (length w + length record_delimiter) f))
            there
          ∙ ap
              (λ bs. Next.item (item_of o c bs) (record {
                buffer =
                    drop (length w + length record_delimiter) (w ++ (record_delimiter ++ rest));
                reads = rs;
              }))
              (take-length-append w (record_delimiter ++ rest))
          ∙ ap (λ bs. Next.item (item_of o c w) (record { buffer = bs; reads = rs }))
              (drop_record w rest))

  next_at_end :
      (r : BufReader)
      → fill_buf r ≡ (record { buffer = []; reads = ended }, false)
      → next o c r ≡ finished
  unfolding next next_from
  next_at_end r filled =
      let fine : ((fill_buf r).1 ≡ false) = ap (λ p. p.1) filled in
      let empty : ((fill_buf r).0 ≡ record { buffer = []; reads = ended }) = ap (λ p. p.0) filled in
      rw (fine, empty, next_from) refl

  -- The items of a file whose records are each followed by the delimiter, and that one read brings into
  -- the buffer: the announcements of the records, in their order.
  items_from-file_of :
      (ws : List Bytes) (fuel : ℕ) (r : BufReader)
      → All IsRecord ws
      → size r < fuel
      → fill_buf r ≡ (record { buffer = file_of ws; reads = ended }, false)
      → items_from o c fuel r ≡ some (map (item_of o c) ws)
  unfolding items_from
  items_from-file_of ws zero r h lt filled = absurd (omega arith)
  items_from-file_of [] (suc fuel) r h lt filled =
      let done : (next o c r ≡ finished) = next_at_end r filled in rw (done, items_from) refl
  items_from-file_of (w ∷ ws) (suc fuel) r (hw, h) lt filled =
      let shorter : (length (file_of ws) < size r) = file_of-size w ws r filled in
      rw (next-record w (file_of ws) ended r hw filled, items_from)
        (ap
          (λ is. elim is as (λ o. Option (List (Item F))) [
            | none ↦ none
            | some is ↦ some (item_of o c w ∷ is)
          ])
          (items_from-file_of ws fuel (record { buffer = file_of ws; reads = ended }) h
            (omega (arith, lt, shorter)) (fill_end (file_of ws))))

  -- A read without a delimiter is put behind what was read of the record.
  next_from_unmatched :
      (fuel : ℕ) (acc a : Bytes) (rs : Reads)
      → is_empty a ≡ false
      → position record_delimiter a ≡ none
      → next_from o c (suc fuel) acc (record { buffer = []; reads = bytes a rs })
        ≡ next_from o c fuel (acc ++ a) (record { buffer = []; reads = rs })
  unfolding next_from fill_buf fill
  next_from_unmatched fuel acc a rs nonempty unmatched =
      rw (nonempty, unmatched)
        (ap (λ bs. next_from o c fuel (acc ++ a) (record { buffer = bs; reads = rs })) (drop_all a))

  next_from_end :
      (fuel : ℕ) (acc : Bytes)
      → is_empty acc ≡ false
      → next_from o c (suc fuel) acc (record { buffer = []; reads = ended })
        ≡ item (item_of o c acc) (record { buffer = []; reads = ended })
  unfolding next_from fill_buf fill
  next_from_end fuel acc nonempty = rw (nonempty, next_from) refl

  -- Bytes of two reads, neither with a delimiter in it, are one record, even where a delimiter stands
  -- across the two; the record is then what is before the delimiter, the delimiter and what is behind.
  pub next-straddling :
      (a b : Bytes)
      → is_empty a ≡ false
      → is_empty b ≡ false
      → position record_delimiter a ≡ none
      → position record_delimiter b ≡ none
      → next o c (record { buffer = []; reads = bytes a (bytes b ended) })
        ≡ item (item_of o c (a ++ b)) (record { buffer = []; reads = ended })
  unfolding next size reads_size
  next-straddling a b some_a some_b no_a no_b =
      let rounds : (0 + suc (length a + suc (length b + 0)) ≡ suc (suc (length a + length b))) =
        omega arith in
      ap (λ n. next_from o c (suc n) [] (record { buffer = []; reads = bytes a (bytes b ended) }))
        rounds
      ∙ next_from_unmatched (suc (suc (length a + length b))) [] a (bytes b ended) some_a no_a
      ∙ next_from_unmatched (suc (length a + length b)) a b ended some_b no_b
      ∙ next_from_end (length a + length b) (a ++ b) (is_empty-append a b some_a)

  -- A cache file that one read brings into the buffer, and whose records are each followed by the
  -- delimiter, is read to the announcements of its records, one to a record and in their order.
  pub items-file_of :
      (ws : List Bytes)
      → All IsRecord ws
      → items o c (record { buffer = []; reads = bytes (file_of ws) ended })
        ≡ some (map (item_of o c) ws)
  unfolding items fill_buf fill
  items-file_of ws h = items_from-file_of ws (suc (size r)) r h (omega arith) refl
    where
      r : BufReader
      r = record { buffer = []; reads = bytes (file_of ws) ended }
