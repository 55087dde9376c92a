-- ===== src/Proto/Packet/Stable.antt =====
-- packet.rs, `Packet::parse` on a stream that arrives in pieces.
use scamp_rs.Common.{
  ℕ, zero, suc, ◌+◌, ◌-◌, ◌≤◌, ◌<◌, ◌≡◌, refl, sym, ap, ◌∙◌, inl, inr, false, ◌&&◌, none, some, [],
  ◌∷◌, ◌++◌, Text, Bytes, arith, length, take, drop, take-append, drop-append, length-append,
  length-take, length-drop, take-append_split, take-take_comm, take-take_of_le, any, any-take, ltb,
  ltb→lt, lt→ltb, min, ◌==◌, if◌then◌else◌, Bool-cases,
}
use scamp_rs.Proto.{max_packet_size}
use scamp_rs.Proto.Packet.{Packet, Codec, too_short, need_bytes, success}
use scamp_rs.Proto.Packet.Frame.{
  Frame, parse-Frame, Frame-parse, parse_found, parse_line_found, parse_words_found,
  parse_numbers_found, take-min,
}
use scamp_rs.Proto.Packet.Parse.{position_crlf, no_line, parse, parse_payload, finish}
use scamp_rs.Strings.Utf8.{from_utf8}

position_crlf-append :
    (xs ys : Bytes) (i : ℕ) → position_crlf xs ≡ some i → position_crlf (xs ++ ys) ≡ some i
unfolding position_crlf
position_crlf-append [] ys i e = absurd (ground arith)
position_crlf-append (a ∷ []) ys i e = absurd (ground arith)
position_crlf-append (a ∷ b ∷ xs) ys zero e = ground (arith, position_crlf-append (b ∷ xs) ys)
position_crlf-append (a ∷ b ∷ xs) ys (suc i) e = ground (arith, position_crlf-append (b ∷ xs) ys i)

pub position_crlf-le : (xs : Bytes) (i : ℕ) → position_crlf xs ≡ some i → i + 2 ≤ length xs
unfolding position_crlf
position_crlf-le [] i e = absurd (ground arith)
position_crlf-le (a ∷ []) i e = absurd (ground arith)
position_crlf-le (a ∷ b ∷ xs) zero e = omega arith
position_crlf-le (a ∷ b ∷ xs) (suc i) e = ground (arith, position_crlf-le (b ∷ xs) i)

position_crlf-take :
    (m : ℕ) (xs : Bytes) (i : ℕ)
    → i + 2 ≤ m
    → position_crlf xs ≡ some i
    → position_crlf (take m xs) ≡ some i
unfolding position_crlf
position_crlf-take m [] i h e = absurd (ground arith)
position_crlf-take m (a ∷ []) i h e = absurd (ground arith)
position_crlf-take zero (a ∷ b ∷ xs) i h e = absurd (omega arith)
position_crlf-take (suc zero) (a ∷ b ∷ xs) i h e = absurd (omega arith)
position_crlf-take (suc (suc m)) (a ∷ b ∷ xs) zero h e = elim (Bool-cases (a == 13 && b == 10)) [
  | inl here ↦ rw here
  | inr later ↦ absurd (ground arith)
]
position_crlf-take (suc (suc m)) (a ∷ b ∷ xs) (suc i) h e =
    ground (arith, position_crlf-take (suc m) (b ∷ xs) i)

-- A cut before the end of the line hides it.
position_crlf-take_before :
    (m : ℕ) (xs : Bytes) (i : ℕ)
    → m < i + 2
    → position_crlf xs ≡ some i
    → position_crlf (take m xs) ≡ none
unfolding position_crlf
position_crlf-take_before m [] i h e = absurd (ground arith)
position_crlf-take_before m (a ∷ []) i h e = absurd (ground arith)
position_crlf-take_before zero (a ∷ b ∷ xs) i h e = refl
position_crlf-take_before (suc zero) (a ∷ b ∷ xs) i h e = refl
position_crlf-take_before (suc (suc m)) (a ∷ b ∷ xs) zero h e = absurd (omega arith)
position_crlf-take_before (suc (suc m)) (a ∷ b ∷ xs) (suc i) h e =
    ground (arith, position_crlf-take_before (suc m) (b ∷ xs) i)

-- The line's own end is no bare newline.
any-newline_line :
    (xs : Bytes) (i : ℕ)
    → position_crlf xs ≡ some i
    → any (λ b. b == 10) (take i xs) ≡ false
    → any (λ b. b == 10) (take (suc i) xs) ≡ false
unfolding position_crlf
any-newline_line [] i e h = absurd (ground arith)
any-newline_line (a ∷ []) i e h = absurd (ground arith)
any-newline_line (a ∷ b ∷ xs) zero e h = ground arith
any-newline_line (a ∷ b ∷ xs) (suc i) e h = ground (arith, any-newline_line (b ∷ xs) i)

take_slice :
    (k n : ℕ) (xs ys : Bytes) → n + k ≤ length xs → take k (drop n (xs ++ ys)) ≡ take k (drop n xs)
take_slice k n xs ys h =
    ap (take k) (drop-append n xs ys (omega arith))
    ∙ take-append k (drop n xs) ys (omega (arith, length-drop n xs))

-- A packet that parses still parses, to the same result, when more bytes have come in behind it.
pub parse-append :
    (c : Codec) (buf more : Bytes) {p : Packet} {used : ℕ}
    → parse c buf ≡ success p used
    → parse c (buf ++ more) ≡ success p used
parse-append c buf more {p} {used} e =
    let f = parse-Frame c buf p used e in
    let fits : f.cut + 2 + f.size + 5 ≤ length buf = omega (arith, f.within, f.used_bytes) in
    let line_end : position_crlf (take 80 (buf ++ more)) ≡ some f.cut =
      ap position_crlf (take-append_split 80 buf more)
      ∙ position_crlf-append (take 80 buf) (take (80 - length buf) more) f.cut f.line_end in
    Frame-parse c (buf ++ more) p used (record {
      cut = f.cut;
      line = f.line;
      cmd = f.cmd;
      number = f.number;
      length_text = f.length_text;
      packet_type = f.packet_type;
      msg_no = f.msg_no;
      size = f.size;
      line_end = line_end;
      line_text = ap from_utf8 (take-append f.cut buf more (omega arith)) ∙ f.line_text;
      line_words = f.line_words;
      number_value = f.number_value;
      size_value = f.size_value;
      size_limit = f.size_limit;
      used_bytes = f.used_bytes;
      within = omega (arith, f.within, length-append buf more);
      trailer_there = take_slice 5 (f.cut + 2 + f.size) buf more (omega arith) ∙ f.trailer_there;
      type_known = f.type_known;
      content =
          ap (λ bs. finish c f.packet_type f.msg_no bs used)
            (take_slice f.size (f.cut + 2) buf more (omega arith))
          ∙ f.content;
    })

no_line_short :
    (bs : Bytes) → any (λ b. b == 10) bs ≡ false → length bs < 80 → no_line bs ≡ too_short
unfolding no_line
no_line_short bs h l = ground arith

parse_no_line :
    (c : Codec) (buf : Bytes)
    → position_crlf (take 80 buf) ≡ none
    → no_line (take 80 buf) ≡ too_short
    → parse c buf ≡ too_short
unfolding parse
parse_no_line c [] h e = refl
parse_no_line c (b ∷ bs) h e =
    let same = take-min 80 (b ∷ bs) in rw (ap position_crlf same ∙ h) (ap no_line same ∙ e)

parse_payload_short :
    (c : Codec) (cmd : Text) (n size start used : ℕ) (buf : Bytes)
    → used ≡ start + size + 5
    → length buf < used
    → parse_payload c cmd n size start buf ≡ need_bytes (used - length buf)
unfolding parse_payload
parse_payload_short c cmd n size start used buf e h =
    rw (lt→ltb (length buf) (start + size + 5) (omega arith), ← e)

-- The part of a frame that ends within the line, which has no bare newline.
prefix_within_line :
    (c : Codec) (buf : Bytes) (m cut : ℕ)
    → position_crlf (take 80 buf) ≡ some cut
    → any (λ b. b == 10) (take cut buf) ≡ false
    → m < cut + 2
    → parse c (take m buf) ≡ too_short
prefix_within_line c buf m cut found clean h =
    let bound : cut + 2 ≤ min 80 (length buf) =
      omega (arith, position_crlf-le (take 80 buf) cut found, length-take 80 buf) in
    let swap : take 80 (take m buf) ≡ take m (take 80 buf) = take-take_comm 80 m buf in
    let line : any (λ b. b == 10) (take cut (take 80 buf)) ≡ false =
      ap (any (λ b. b == 10)) (take-take_of_le cut 80 buf (omega arith)) ∙ clean in
    parse_no_line c (take m buf)
      (ap position_crlf swap ∙ position_crlf-take_before m (take 80 buf) cut h found)
      (no_line_short (take 80 (take m buf))
        (ap (any (λ b. b == 10)) swap
          ∙ any-take (λ b. b == 10) m (suc cut) (take 80 buf) (omega arith)
              (any-newline_line (take 80 buf) cut found line))
        (omega (arith, length-take 80 (take m buf), length-take m buf)))

-- The part of a frame that holds the whole line.
prefix_behind_line :
    (c : Codec) (buf : Bytes) (p : Packet) (used m : ℕ) (f : Frame c buf p used)
    → f.cut + 2 ≤ m
    → m < used
    → parse c (take m buf) ≡ need_bytes (used - m)
prefix_behind_line c buf p used m f h short =
    let len : length (take m buf) ≡ m = omega (arith, length-take m buf, f.within) in
    let found : position_crlf (take 80 (take m buf)) ≡ some f.cut =
      ap position_crlf (take-take_comm 80 m buf)
      ∙ position_crlf-take m (take 80 buf) f.cut h f.line_end in
    parse_found c (take m buf) f.cut (omega arith) found
    ∙ parse_line_found c f.cut (take m buf) f.line
        (ap from_utf8 (take-take_of_le f.cut m buf (omega arith)) ∙ f.line_text)
    ∙ parse_words_found c _ f.cmd f.number f.length_text (f.cut + 2) (take m buf) f.line_words
    ∙ parse_numbers_found c f.cmd f.number f.length_text (f.cut + 2) (take m buf) f.msg_no f.size
        f.number_value f.size_value f.size_limit
    ∙ parse_payload_short c f.cmd f.msg_no f.size (f.cut + 2) used (take m buf) f.used_bytes
        (omega arith)
    ∙ ap (λ k. need_bytes (used - k)) len

-- Before the last byte of a packet is there, the parser asks for more: it returns `TooShort` within
-- the line and exactly the number of missing bytes behind it, provided that no bare newline stands
-- before the line's end.
pub parse-take :
    (c : Codec) (buf : Bytes) {p : Packet} {used cut : ℕ} (m : ℕ)
    → parse c buf ≡ success p used
    → position_crlf (take 80 buf) ≡ some cut
    → any (λ b. b == 10) (take cut buf) ≡ false
    → m < used
    → parse c (take m buf) ≡ (if ltb m (cut + 2) then too_short else need_bytes (used - m))
parse-take c buf {p} {used} {cut} m e found clean h =
    let f = parse-Frame c buf p used e in
    let same : f.cut ≡ cut = cc (sym f.line_end ∙ found) in
    elim (Bool-cases (ltb m (cut + 2))) [
      | inl within ↦ rw within (prefix_within_line c buf m cut found clean (ltb→lt _ _ within))
      | inr behind ↦ rw behind (prefix_behind_line c buf p used m f (ground arith) h)
    ]

-- A packet that parses takes at least seven bytes, at most those of the buffer, and at most
-- 131157: 80 for the line, the greatest payload and the trailer.
pub parse-used_bounds :
    (c : Codec) (buf : Bytes) {p : Packet} {used : ℕ}
    → parse c buf ≡ success p used
    → (7 ≤ used) × (used ≤ length buf) × (used ≤ 80 + max_packet_size + 5)
parse-used_bounds c buf {p} {used} e =
    let f = parse-Frame c buf p used e in
    let bound : f.cut + 2 ≤ 80 =
      omega (arith, position_crlf-le (take 80 buf) f.cut f.line_end, length-take 80 buf) in
    (omega (arith, f.used_bytes), f.within, omega (arith, f.used_bytes, f.size_limit))
