-- ===== src/Proto/Packet/Kept.antt =====
-- packet.rs, `Packet::parse`: which of the results it has.
use scamp_rs.Common.{
  ℕ, ◌+◌, ◌-◌, Bool, true, false, Option, none, some, List, [], ◌∷◌, Text, Bytes, length, drop, any,
  leb, ltb, same, is_empty, min, ◌==◌, take, if◌then◌else◌,
}
use scamp_rs.Proto.{PacketType, header, data_chunk, eof, txerr, ack, ping, pong, max_packet_size}
use scamp_rs.Proto.Packet.{
  Codec, ParseResult, too_short, need_bytes, success, dropped, fatal, decode_header,
  unexpected_type, invalid_utf8, overlong_line, invalid_msg_no, invalid_size, too_large,
  malformed_trailer, malformed_header, type_of_name,
}
use scamp_rs.Proto.Packet.Parse.{
  position_crlf, parse, parse_line, parse_words, parse_numbers, parse_payload, finish, no_line,
}
use scamp_rs.Proto.Packet.Write.{trailer}
use scamp_rs.Strings.Decimal.{parse_u64}
use scamp_rs.Strings.Split.{split_whitespace}
use scamp_rs.Strings.Utf8.{from_utf8}

-- `Drop` is not among the results.
abbrev pub IsKept : ParseResult → Type 0
IsKept (dropped n) = ⊥
IsKept too_short = Unit {0}
IsKept (need_bytes k) = Unit {0}
IsKept (success p n) = Unit {0}
IsKept (fatal e) = Unit {0}

if-IsKept : (b : Bool) (x y : ParseResult) → IsKept x → IsKept y → IsKept (if b then x else y)
if-IsKept true x y p q = p
if-IsKept false x y p q = q

elim-IsKept {ℓ} :
    {A : Type ℓ} (o : Option A) (y : ParseResult) (f : A → ParseResult)
    → IsKept y
    → ((a : A) → IsKept (f a))
    → IsKept (elim o [ none ↦ y | some a ↦ f a ])
elim-IsKept none y f p q = p
elim-IsKept (some a) y f p q = q a

finish-IsKept :
    (c : Codec) (t : PacketType) (n : ℕ) (payload : Bytes) (used : ℕ)
    → IsKept (finish c t n payload used)
unfolding finish
finish-IsKept c header n payload used =
    elim-IsKept (decode_header c payload) (fatal malformed_header) _ tt (λ h. tt)
finish-IsKept c data_chunk n payload used = tt
finish-IsKept c eof n payload used = tt
finish-IsKept c txerr n payload used = tt
finish-IsKept c ack n payload used = tt
finish-IsKept c ping n payload used = tt
finish-IsKept c pong n payload used = tt

parse_payload-IsKept :
    (c : Codec) (cmd : Text) (n size start : ℕ) (buf : Bytes)
    → IsKept (parse_payload c cmd n size start buf)
unfolding parse_payload
parse_payload-IsKept c cmd n size start buf =
    let end = start + size in
    let payload = take size (drop start buf) in
    let typed : IsKept (elim (type_of_name cmd) [
      | none ↦ fatal (unexpected_type cmd)
      | some t ↦ finish c t n payload (end + 5)
    ]) =
      elim-IsKept (type_of_name cmd) (fatal (unexpected_type cmd)) _ tt
        (λ t. finish-IsKept c t n payload (end + 5)) in
    if-IsKept (ltb (length buf) (end + 5)) (need_bytes (end + 5 - length buf)) _ tt
      (if-IsKept (same (take 5 (drop end buf)) trailer) _ (fatal malformed_trailer) typed tt)

parse_numbers-IsKept :
    (c : Codec) (cmd msg_no size : Text) (start : ℕ) (buf : Bytes)
    → IsKept (parse_numbers c cmd msg_no size start buf)
unfolding parse_numbers
parse_numbers-IsKept c cmd msg_no size start buf =
    elim-IsKept (parse_u64 msg_no) (fatal invalid_msg_no) _ tt (λ n.
      elim-IsKept (parse_u64 size) (fatal invalid_size) _ tt (λ k.
        if-IsKept (ltb max_packet_size k) (fatal too_large) _ tt
          (parse_payload-IsKept c cmd n k start buf)))

parse_words-IsKept :
    (c : Codec) (words : List Text) (start : ℕ) (buf : Bytes)
    → IsKept (parse_words c words start buf)
unfolding parse_words
parse_words-IsKept c [] start buf = tt
parse_words-IsKept c (a ∷ []) start buf = tt
parse_words-IsKept c (a ∷ b ∷ []) start buf = tt
parse_words-IsKept c (cmd ∷ msg_no ∷ size ∷ []) start buf =
    parse_numbers-IsKept c cmd msg_no size start buf
parse_words-IsKept c (a ∷ b ∷ d ∷ e ∷ more) start buf = tt

parse_line-IsKept : (c : Codec) (cut : ℕ) (buf : Bytes) → IsKept (parse_line c cut buf)
unfolding parse_line
parse_line-IsKept c cut buf =
    elim-IsKept (from_utf8 (take cut buf)) (fatal invalid_utf8)
      (λ line. parse_words c (split_whitespace line) (cut + 2) buf) tt
      (λ line. parse_words-IsKept c (split_whitespace line) (cut + 2) buf)

no_line-IsKept : (scanned : Bytes) → IsKept (no_line scanned)
unfolding no_line
no_line-IsKept scanned =
    if-IsKept (any (λ b. b == 10) scanned) _ _ tt
      (if-IsKept (leb 80 (length scanned)) (fatal overlong_line) too_short tt tt)

-- `Packet::parse` never asks for a packet to be dropped.
pub parse-IsKept : (c : Codec) (buf : Bytes) → IsKept (parse c buf)
unfolding parse
parse-IsKept c buf =
    let scanned = take (min (length buf) 80) buf in
    if-IsKept (is_empty buf) too_short _ tt (
      elim-IsKept (position_crlf scanned) (no_line scanned) (λ cut. parse_line c cut buf)
        (no_line-IsKept scanned) (λ cut. parse_line-IsKept c cut buf))
