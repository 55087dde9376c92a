-- ===== src/Proto/Packet/Frame.antt =====
-- packet.rs, `Packet::parse`: what a buffer that parses looks like, said without the stages.
use Prim.Native.Nat.{min}
use scamp_rs.Common.{
  ℕ, ◌+◌, ◌≤◌, ◌≡◌, refl, sym, ap, ◌∙◌, inl, inr, true, false, some, List, [], ◌∷◌, Text, Bytes,
  arith, length, take, drop, take_all, same, same→eq, same_refl, ◌<◌, ◌↔◌, ltb, leb, Bool-cases,
  Option-cases,
}
use scamp_rs.Proto.{PacketType, header, max_packet_size}
use scamp_rs.Proto.Packet.{Packet, Codec, success, type_of_name}
use scamp_rs.Proto.Packet.Parse.{
  position_crlf, no_line, finish, parse_payload, parse_numbers, parse_words, parse_line, parse,
}
use scamp_rs.Proto.Packet.Write.{trailer}
use scamp_rs.Strings.Decimal.{parse_u64}
use scamp_rs.Strings.Split.{split_whitespace}
use scamp_rs.Strings.Utf8.{from_utf8}

-- A frame of `used` bytes at the front of `buf`: a line of three words, a payload of the announced
-- size, and the trailer.
pub record Frame (c : Codec) (buf : Bytes) (p : Packet) (used : ℕ) : Type 0 where
  pub cut : ℕ
  pub line : Text
  pub cmd : Text
  pub number : Text
  pub length_text : Text
  pub packet_type : PacketType
  pub msg_no : ℕ
  pub size : ℕ
  pub line_end : position_crlf (take 80 buf) ≡ some cut
  pub line_text : from_utf8 (take cut buf) ≡ some line
  pub line_words : split_whitespace line ≡ cmd ∷ number ∷ length_text ∷ []
  pub number_value : parse_u64 number ≡ some msg_no
  pub size_value : parse_u64 length_text ≡ some size
  pub size_limit : size ≤ max_packet_size
  pub used_bytes : used ≡ cut + 2 + size + 5
  pub within : used ≤ length buf
  pub trailer_there : take 5 (drop (cut + 2 + size) buf) ≡ trailer
  pub type_known : type_of_name cmd ≡ some packet_type
  pub content : finish c packet_type msg_no (take size (drop (cut + 2) buf)) used ≡ success p used

-- `buf[..scan_len]` is the first 80 bytes, or all of them.
pub take-min {ℓ} : {A : Type ℓ} (n : ℕ) (xs : List A) → take (min (length xs) n) xs ≡ take n xs
take-min n xs = elim (Bool-cases (leb n (length xs))) [
  | inl enough ↦ let e : min (length xs) n ≡ n = ground arith in rw e
  | inr fewer ↦
      let e : min (length xs) n ≡ length xs = ground arith in
      rw e (take_all (length xs) xs (omega arith) ∙ sym (take_all n xs (ground arith)))
]

finish-used :
    (c : Codec) (t : PacketType) (n k used : ℕ) (bs : Bytes) (p : Packet)
    → finish c t n bs k ≡ success p used
    → k ≡ used
unfolding finish
finish-used c header n k used bs p e = ground arith
finish-used c _ n k used bs p e = ground arith

-- What the last two stages have established of a packet that they hand out.
abbrev Payload : Codec → Text → ℕ → ℕ → ℕ → Bytes → Packet → ℕ → Type 0
Payload c cmd n size start buf p used =
    (t : PacketType) × (used ≡ start + size + 5)
    × (used ≤ length buf)
    × (take 5 (drop (start + size) buf) ≡ trailer)
    × (type_of_name cmd ≡ some t)
    × (finish c t n (take size (drop start buf)) used ≡ success p used)

pub parse_payload-inv :
    (c : Codec) (cmd : Text) (n size start : ℕ) (buf : Bytes) (p : Packet) (used : ℕ)
    → parse_payload c cmd n size start buf ≡ success p used
    → Payload c cmd n size start buf p used
unfolding parse_payload
parse_payload-inv c cmd n size start buf p used e = elim (Option-cases (type_of_name cmd)) [
  | inl unknown ↦ absurd (ground arith)
  | inr (t, known) ↦
      let end = start + size in
      let fits : ltb (length buf) (end + 5) ≡ false = ground arith in
      let ends : same (take 5 (drop end buf)) trailer ≡ true = ground arith in
      let done : finish c t n (take size (drop start buf)) (end + 5) ≡ success p used =
        ground arith in
      let count : end + 5 ≡ used = finish-used c t n (end + 5) used _ p done in
      (t, omega arith, ground arith, same→eq _ _ ends, known, rw count at done)
]

parse_numbers-inv :
    (c : Codec) (cmd num siz : Text) (start : ℕ) (buf : Bytes) (p : Packet) (used : ℕ)
    → parse_numbers c cmd num siz start buf ≡ success p used
    → (n : ℕ) × (size : ℕ) × (parse_u64 num ≡ some n)
      × (parse_u64 siz ≡ some size)
      × (size ≤ max_packet_size)
      × (parse_payload c cmd n size start buf ≡ success p used)
unfolding parse_numbers
parse_numbers-inv c cmd num siz start buf p used e = elim (Option-cases (parse_u64 num)) [
  | inl bad ↦ absurd (ground arith)
  | inr (n, good) ↦ elim (Option-cases (parse_u64 siz)) [
    | inl bad ↦ absurd (ground arith)
    | inr (size, fine) ↦ (n, size, good, fine, ground arith, ground arith)
  ]
]

parse_words-inv :
    (c : Codec) (words : List Text) (start : ℕ) (buf : Bytes) (p : Packet) (used : ℕ)
    → parse_words c words start buf ≡ success p used
    → (cmd : Text) × (num : Text) × (siz : Text) × (words ≡ cmd ∷ num ∷ siz ∷ [])
      × (parse_numbers c cmd num siz start buf ≡ success p used)
unfolding parse_words
parse_words-inv c (cmd ∷ num ∷ siz ∷ []) start buf p used e = (cmd, num, siz, refl, e)
parse_words-inv c _ start buf p used e = absurd (ground arith)

parse_line-inv :
    (c : Codec) (cut : ℕ) (buf : Bytes) (p : Packet) (used : ℕ)
    → parse_line c cut buf ≡ success p used
    → (line : Text) × (from_utf8 (take cut buf) ≡ some line)
      × (parse_words c (split_whitespace line) (cut + 2) buf ≡ success p used)
unfolding parse_line
parse_line-inv c cut buf p used e = elim (Option-cases (from_utf8 (take cut buf))) [
  | inl bad ↦ absurd (ground arith)
  | inr (line, good) ↦ (line, good, ground arith)
]

no_line-ne : (bs : Bytes) (p : Packet) (used : ℕ) → no_line bs ≡ success p used → ⊥
unfolding no_line
no_line-ne bs p used e = ground arith

parse-inv :
    (c : Codec) (buf : Bytes) (p : Packet) (used : ℕ)
    → parse c buf ≡ success p used
    → (cut : ℕ) × (position_crlf (take 80 buf) ≡ some cut) × (parse_line c cut buf ≡ success p used)
unfolding parse
parse-inv c [] p used e = absurd (ground arith)
parse-inv c (b ∷ bs) p used e =
    elim (Option-cases (position_crlf (take (min (length (b ∷ bs)) 80) (b ∷ bs)))) [
      | inl no_end ↦
          absurd (ground (arith, no_line-ne (take (min (length (b ∷ bs)) 80) (b ∷ bs)) p used))
      | inr (cut, found) ↦
          (cut, ap position_crlf (sym (take-min 80 (b ∷ bs))) ∙ found, ground arith)
    ]

-- A packet that parses stands in a frame at the front of the buffer.
pub parse-Frame :
    (c : Codec) (buf : Bytes) (p : Packet) (used : ℕ)
    → parse c buf ≡ success p used
    → Frame c buf p used
parse-Frame c buf p used e =
    let (cut, found, e1) = parse-inv c buf p used e in
    let (line, text, e2) = parse_line-inv c cut buf p used e1 in
    let (cmd, num, siz, words, e3) =
      parse_words-inv c (split_whitespace line) (cut + 2) buf p used e2 in
    let (n, size, number, amount, limit, e4) =
      parse_numbers-inv c cmd num siz (cut + 2) buf p used e3 in
    let (t, count, room, ends, known, content) =
      parse_payload-inv c cmd n size (cut + 2) buf p used e4 in
    record {
      cut = cut;
      line = line;
      cmd = cmd;
      number = num;
      length_text = siz;
      packet_type = t;
      msg_no = n;
      size = size;
      line_end = found;
      line_text = text;
      line_words = words;
      number_value = number;
      size_value = amount;
      size_limit = limit;
      used_bytes = count;
      within = room;
      trailer_there = ends;
      type_known = known;
      content = content;
    }

module _ (c : Codec) where
  pub parse_found :
      (buf : Bytes) (cut : ℕ)
      → 0 < length buf
      → position_crlf (take 80 buf) ≡ some cut
      → parse c buf ≡ parse_line c cut buf
  unfolding parse
  parse_found [] cut full found = absurd (omega arith)
  parse_found (b ∷ bs) cut full found = rw (take-min 80 (b ∷ bs), found)

  pub parse_line_found :
      (cut : ℕ) (buf : Bytes) (line : Text)
      → from_utf8 (take cut buf) ≡ some line
      → parse_line c cut buf ≡ parse_words c (split_whitespace line) (cut + 2) buf
  unfolding parse_line
  parse_line_found cut buf line text = rw (text, parse_line)

  pub parse_words_found :
      (words : List Text) (cmd num siz : Text) (start : ℕ) (buf : Bytes)
      → words ≡ cmd ∷ num ∷ siz ∷ []
      → parse_words c words start buf ≡ parse_numbers c cmd num siz start buf
  unfolding parse_words
  parse_words_found words cmd num siz start buf e = rw e

  pub parse_numbers_found :
      (cmd num siz : Text) (start : ℕ) (buf : Bytes) (n size : ℕ)
      → parse_u64 num ≡ some n
      → parse_u64 siz ≡ some size
      → size ≤ max_packet_size
      → parse_numbers c cmd num siz start buf ≡ parse_payload c cmd n size start buf
  unfolding parse_numbers
  parse_numbers_found cmd num siz start buf n size e1 e2 h = ground arith

  pub parse_payload_found :
      (cmd : Text) (n size start : ℕ) (buf : Bytes) (t : PacketType) (p : Packet) (used : ℕ)
      → used ≡ start + size + 5
      → used ≤ length buf
      → take 5 (drop (start + size) buf) ≡ trailer
      → type_of_name cmd ≡ some t
      → finish c t n (take size (drop start buf)) used ≡ success p used
      → parse_payload c cmd n size start buf ≡ success p used
  unfolding parse_payload
  parse_payload_found cmd n size start buf t p used count room ends known content =
      let fits : ltb (length buf) (start + size + 5) ≡ false = ground arith in
      rw (fits, ends, same_refl trailer, known, ← count) content

-- And a frame parses: the description is exact.
pub Frame-parse :
    (c : Codec) (buf : Bytes) (p : Packet) (used : ℕ)
    → Frame c buf p used
    → parse c buf ≡ success p used
Frame-parse c buf p used f =
    parse_found c buf f.cut (omega (arith, f.within, f.used_bytes)) f.line_end
    ∙ parse_line_found c f.cut buf f.line f.line_text
    ∙ parse_words_found c _ f.cmd f.number f.length_text (f.cut + 2) buf f.line_words
    ∙ parse_numbers_found c f.cmd f.number f.length_text (f.cut + 2) buf f.msg_no f.size
        f.number_value f.size_value f.size_limit
    ∙ parse_payload_found c f.cmd f.msg_no f.size (f.cut + 2) buf f.packet_type p used f.used_bytes
        f.within f.trailer_there f.type_known f.content

-- A buffer parses to a packet exactly when that packet's frame stands at its front: a line of three
-- words within the first 80 bytes, a payload of the announced size, at most 131072 bytes, and the
-- trailer. The bytes reported as used are those of the frame.
pub parse-iff-Frame :
    (c : Codec) (buf : Bytes) (p : Packet) (used : ℕ)
    → (parse c buf ≡ success p used) ↔ Frame c buf p used
parse-iff-Frame c buf p used = (parse-Frame c buf p used, Frame-parse c buf p used)
