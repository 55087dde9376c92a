-- ===== src/Proto/Packet/Parse.antt =====
-- packet.rs, `Packet::parse`, one function for each stage.
use scamp_rs.Common.{
  ℕ, suc, ◌+◌, ◌-◌, min, ◌&&◌, Option, none, some, List, [], ◌∷◌, Text, Bytes, length, take, drop,
  is_empty, any, same, ltb, leb, ◌==◌, if◌then◌else◌,
}
use scamp_rs.Proto.{PacketType, header, max_packet_size}
use scamp_rs.Proto.Packet.{
  Codec, ParseResult, too_short, need_bytes, success, fatal, bare_newline, overlong_line,
  invalid_utf8, malformed_line, invalid_msg_no, invalid_size, too_large, malformed_trailer,
  malformed_header, unexpected_type, decode_header, type_of_name,
}
use scamp_rs.Proto.Packet.Write.{trailer}
use scamp_rs.Strings.Decimal.{parse_u64}
use scamp_rs.Strings.Split.{split_whitespace}
use scamp_rs.Strings.Utf8.{from_utf8}

-- `windows(2).position(|w| w == b"\r\n")`
unfoldable pub position_crlf : Bytes → Option ℕ
position_crlf [] = none
position_crlf (a ∷ []) = none
position_crlf (a ∷ b ∷ s) =
    let rest = position_crlf (b ∷ s) in
    if a == 13 && b == 10 then some 0 else elim rest [ none ↦ none | some i ↦ some (suc i) ]

-- No line end among the bytes that were looked at.
unfoldable pub no_line : Bytes → ParseResult
no_line scanned =
    if any (λ b. b == 10) scanned
    then fatal bare_newline
    else if leb 80 (length scanned)
    then fatal overlong_line
    else too_short

-- The packet of a known type.
unfoldable pub finish : Codec → PacketType → ℕ → Bytes → ℕ → ParseResult
finish c header n payload used = elim (decode_header c payload) [
  | none ↦ fatal malformed_header
  | some h ↦
      success (record { packet_type = header; msg_no = n; packet_header = some h; body = [] }) used
]
finish c t n payload used =
    success (record { packet_type = t; msg_no = n; packet_header = none; body = payload }) used

-- The payload and the trailer, from `start` on.
unfoldable pub parse_payload : Codec → Text → ℕ → ℕ → ℕ → Bytes → ParseResult
parse_payload c cmd n size start buf =
    let end = start + size in
    if ltb (length buf) (end + 5)
    then need_bytes (end + 5 - length buf)
    else if same (take 5 (drop end buf)) trailer
    then elim (type_of_name cmd) [
      | none ↦ fatal (unexpected_type cmd)
      | some t ↦ finish c t n (take size (drop start buf)) (end + 5)
    ]
    else fatal malformed_trailer

unfoldable pub parse_numbers : Codec → Text → Text → Text → ℕ → Bytes → ParseResult
parse_numbers c cmd msg_no size start buf = elim (parse_u64 msg_no) [
  | none ↦ fatal invalid_msg_no
  | some n ↦ elim (parse_u64 size) [
    | none ↦ fatal invalid_size
    | some k ↦ if ltb max_packet_size k then fatal too_large else parse_payload c cmd n k start buf
  ]
]

unfoldable pub parse_words : Codec → List Text → ℕ → Bytes → ParseResult
parse_words c (cmd ∷ msg_no ∷ size ∷ []) start buf = parse_numbers c cmd msg_no size start buf
parse_words c _ start buf = fatal malformed_line

-- The line before the `\r\n` at `cut`.
unfoldable pub parse_line : Codec → ℕ → Bytes → ParseResult
parse_line c cut buf = elim (from_utf8 (take cut buf)) [
  | none ↦ fatal invalid_utf8
  | some line ↦ parse_words c (split_whitespace line) (cut + 2) buf
]

unfoldable pub parse : Codec → Bytes → ParseResult
parse c buf =
    let scan_len = min (length buf) 80 in
    let scanned = take scan_len buf in
    if is_empty buf
    then too_short
    else elim (position_crlf scanned) [ none ↦ no_line scanned | some cut ↦ parse_line c cut buf ]
