-- ===== src/Proto/Packet/RoundTrip.antt =====
-- packet.rs: `Packet::parse` reads back what `Packet::write` has written.
use scamp_rs.Common.{
  ℕ, suc, ◌+◌, ◌-◌, ◌≤◌, ◌<◌, ◌≡◌, refl, sym, ap, ◌∙◌, false, Option, none, some, [], ◌∷◌, ◌++◌,
  append_assoc, append-nil, Bytes, arith, length, take, drop, take_all, length-append,
  take-length-append, drop-length-append, take-append_split, any, ltb, ◌==◌, if◌then◌else◌,
}
use mathlib.Core.Path.{ap₂}
use scamp_rs.Common.Words.{u64_mod}
use scamp_rs.Proto.{PacketType, header, max_packet_size}
use scamp_rs.Proto.Header.{PacketHeader}
use scamp_rs.Proto.Header.RoundTrip.{IsWire, of_json-to_json}
use scamp_rs.Proto.Header.Struct.{to_json}
use scamp_rs.Proto.Packet.{
  Packet, Codec, success, too_short, need_bytes, encode_header, decode_header, type_name,
}
use scamp_rs.Proto.Packet.Frame.{Frame-parse}
use scamp_rs.Proto.Packet.Parse.{position_crlf, parse, finish}
use scamp_rs.Proto.Packet.Write.{crlf, trailer, body_bytes, header_words, header_line, to_bytes}
use scamp_rs.Proto.Packet.Stable.{parse-take}
use scamp_rs.Strings.Decimal.{to_string, parse_u64-to_string}
use scamp_rs.Strings.Utf8.{from_utf8, from_utf8_ascii}
use scamp_rs.Proto.Packet.Line.{
  type_of_name-type_name, position_crlf-line, any-newline_free, All-map, header_words-All,
  split-header_words, header_words-length,
}

-- What the body and the header of a packet must be for its type: a header packet has a header and no
-- body of its own, and JSON's text form keeps that header; any other packet has a body alone.
abbrev pub Fits : Codec → PacketType → Option PacketHeader → Bytes → Type 0
Fits c header none body = ⊥
Fits c header (some h) body =
    (body ≡ []) × IsWire h × (c.text.parse (encode_header c h) ≡ some (to_json h))
Fits c _ none body = Unit {0}
Fits c _ (some h) body = ⊥

pub record IsSendable (c : Codec) (p : Packet) : Type 0 where
  pub number : p.msg_no < u64_mod
  pub size : length (body_bytes c p) ≤ max_packet_size
  pub content : Fits c p.packet_type p.packet_header p.body

decode-encode_header :
    (c : Codec) (h : PacketHeader)
    → IsWire h
    → c.text.parse (encode_header c h) ≡ some (to_json h)
    → decode_header c (encode_header c h) ≡ some h
unfolding decode_header
decode-encode_header c h w e = rw (e, decode_header) (of_json-to_json c.of_array h w)

finish-body_bytes :
    (c : Codec) (t : PacketType) (n : ℕ) (o : Option PacketHeader) (body : Bytes) (used : ℕ)
    → Fits c t o body
    → let p : Packet = record { packet_type = t; msg_no = n; packet_header = o; body = body } in
      finish c t n (body_bytes c p) used ≡ success p used
unfolding finish body_bytes
finish-body_bytes c header n none body used f = absurd f
finish-body_bytes c header n (some h) body used f =
    rw (decode-encode_header c h f.1 f.2, finish, f.0)
finish-body_bytes c _ n none body used f = refl
finish-body_bytes c _ n (some h) body used f = absurd f

module _ (c : Codec) (p : Packet) (rest : Bytes) where
  -- The bytes of the packet and what follows, cut behind the line's words and behind the payload.
  to_bytes-words :
      to_bytes c p ++ rest ≡ header_words c p ++ 13 ∷ 10 ∷ (body_bytes c p ++ (trailer ++ rest))
  unfolding to_bytes header_line
  to_bytes-words = simp append_assoc

  to_bytes-payload :
      to_bytes c p ++ rest ≡ (header_words c p ++ crlf) ++ (body_bytes c p ++ (trailer ++ rest))
  unfolding to_bytes header_line
  to_bytes-payload = simp append_assoc

  to_bytes-trailer :
      to_bytes c p ++ rest ≡ ((header_words c p ++ crlf) ++ body_bytes c p) ++ (trailer ++ rest)
  unfolding to_bytes header_line
  to_bytes-trailer = simp append_assoc

  line_end :
      length (header_words c p) ≤ 34
      → position_crlf (take 80 (to_bytes c p ++ rest)) ≡ some (length (header_words c p))
  line_end short =
      let w = header_words c p in
      let tail = body_bytes c p ++ (trailer ++ rest) in
      let room : 80 - length w ≡ suc (suc (78 - length w)) = omega arith in
      ap (λ bs. position_crlf (take 80 bs)) to_bytes-words
      ∙ ap position_crlf (
          take-append_split 80 w (13 ∷ 10 ∷ tail)
          ∙ ap (λ bs. bs ++ take (80 - length w) (13 ∷ 10 ∷ tail)) (take_all 80 w (omega arith))
          ∙ ap (λ k. w ++ take k (13 ∷ 10 ∷ tail)) room)
      ∙ position_crlf-line w (take (78 - length w) tail) (header_words-All c p)

  line_text :
      from_utf8 (take (length (header_words c p)) (to_bytes c p ++ rest)) ≡ some (header_words c p)
  line_text =
      ap (λ bs. from_utf8 (take (length (header_words c p)) bs)) to_bytes-words
      ∙ ap from_utf8 (take-length-append (header_words c p) _)
      ∙ from_utf8_ascii (header_words c p)
          (All-map (header_words c p) (λ x l. l.0) (header_words-All c p))

  payload_there :
      take (length (body_bytes c p)) (drop (length (header_words c p) + 2) (to_bytes c p ++ rest))
      ≡ body_bytes c p
  payload_there =
      let w = header_words c p in
      let len : length w + 2 ≡ length (w ++ crlf) = omega (arith, length-append w crlf) in
      ap₂ (λ k bs. take (length (body_bytes c p)) (drop k bs)) len to_bytes-payload
      ∙ ap (take (length (body_bytes c p))) (drop-length-append (w ++ crlf) _)
      ∙ take-length-append (body_bytes c p) (trailer ++ rest)

  trailer_there :
      take 5 (drop (length (header_words c p) + 2 + length (body_bytes c p)) (to_bytes c p ++ rest))
      ≡ trailer
  trailer_there =
      let w = header_words c p in
      let b = body_bytes c p in
      let len : length w + 2 + length b ≡ length ((w ++ crlf) ++ b) =
        omega (arith, length-append w crlf, length-append (w ++ crlf) b) in
      ap₂ (λ k bs. take 5 (drop k bs)) len to_bytes-trailer
      ∙ ap (take 5) (drop-length-append ((w ++ crlf) ++ b) _)
      ∙ take-length-append trailer rest

pub length-to_bytes :
    (c : Codec) (p : Packet)
    → length (to_bytes c p) ≡ length (header_words c p) + 2 + length (body_bytes c p) + 5
unfolding to_bytes header_line
length-to_bytes c p = omega (
  arith,
  length-append (header_words c p ++ crlf) (body_bytes c p ++ trailer),
  length-append (header_words c p) crlf,
  length-append (body_bytes c p) trailer,
)

-- A packet that is written is read back, with the number of bytes that it took, whatever follows it
-- in the buffer. Its message number fits a `u64`, its body the size limit, and it has a header
-- exactly if it is a header packet.
pub parse-to_bytes :
    (c : Codec) (p : Packet) (rest : Bytes)
    → IsSendable c p
    → parse c (to_bytes c p ++ rest) ≡ success p (length (to_bytes c p))
parse-to_bytes c p rest s =
    let short = header_words-length c p s.number s.size in
    let w = header_words c p in
    let n = length (to_bytes c p) in
    Frame-parse c (to_bytes c p ++ rest) p n (record {
      cut = length w;
      line = w;
      cmd = type_name p.packet_type;
      number = to_string p.msg_no;
      length_text = to_string (length (body_bytes c p));
      packet_type = p.packet_type;
      msg_no = p.msg_no;
      size = length (body_bytes c p);
      line_end = line_end c p rest short;
      line_text = line_text c p rest;
      line_words = split-header_words c p;
      number_value = parse_u64-to_string p.msg_no s.number;
      size_value = parse_u64-to_string (length (body_bytes c p)) (omega (arith, s.size));
      size_limit = s.size;
      used_bytes = length-to_bytes c p;
      within = omega (arith, length-append (to_bytes c p) rest);
      trailer_there = trailer_there c p rest;
      type_known = type_of_name-type_name p.packet_type;
      content =
          ap (λ bs. finish c p.packet_type p.msg_no bs n) (payload_there c p rest)
          ∙ finish-body_bytes c p.packet_type p.msg_no p.packet_header p.body n s.content;
    })

-- While the last byte of a written packet is missing, the parser neither fails nor hands out a
-- packet: it asks for more.
pub parse-take-to_bytes :
    (c : Codec) (p : Packet) (m : ℕ)
    → IsSendable c p
    → m < length (to_bytes c p)
    → parse c (take m (to_bytes c p)) ≡ (
        if ltb m (length (header_words c p) + 2)
        then too_short
        else need_bytes (length (to_bytes c p) - m))
parse-take-to_bytes c p m s h =
    let w = header_words c p in
    let bare = append-nil (to_bytes c p) in
    let found : position_crlf (take 80 (to_bytes c p)) ≡ some (length w) =
      ap (λ bs. position_crlf (take 80 bs)) (sym bare)
      ∙ line_end c p [] (header_words-length c p s.number s.size) in
    let clean : any (λ b. b == 10) (take (length w) (to_bytes c p)) ≡ false =
      ap (λ bs. any (λ b. b == 10) (take (length w) bs)) (sym bare ∙ to_bytes-words c p [])
      ∙ ap (any (λ b. b == 10)) (take-length-append w _)
      ∙ any-newline_free w (header_words-All c p) in
    parse-take c (to_bytes c p) m (ap (parse c) (sym bare) ∙ parse-to_bytes c p [] s) found clean h

pub length-to_bytes-pos : (c : Codec) (p : Packet) → 0 < length (to_bytes c p)
length-to_bytes-pos c p = omega (arith, length-to_bytes c p)
