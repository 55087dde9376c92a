-- ===== src/Proto/Packet/Write.antt =====
-- packet.rs, `Packet::write`, over a writer whose calls may fail part of the way.
use scamp_rs.Common.{
  ℕ, ◌+◌, ◌≡◌, Bool, true, false, Option, none, some, List, [], ◌∷◌, ◌++◌, Text, Bytes, codes,
  length, take,
}
use scamp_rs.Proto.Header.{PacketHeader}
use scamp_rs.Proto.Packet.{Packet, Codec, encode_header, type_name}
use scamp_rs.Strings.Decimal.{to_string}

abbrev pub crlf : Bytes
crlf = 13 ∷ 10 ∷ []

abbrev pub trailer : Bytes
trailer = codes "END\r\n"

-- The header's JSON, where there is a header; the body otherwise.
body_of : Codec → Option PacketHeader → Bytes → Bytes
body_of c none body = body
body_of c (some h) body = encode_header c h

unfoldable pub body_bytes : Codec → Packet → Bytes
unfolding body_of
body_bytes c p = body_of c p.packet_header p.body

-- The type, the message number and the size, before the line's end.
unfoldable pub header_words : Codec → Packet → Text
header_words c p =
    type_name p.packet_type
    ++ b' ' ∷ (to_string p.msg_no ++ b' ' ∷ to_string (length (body_bytes c p)))

unfoldable pub header_line : Codec → Packet → Bytes
header_line c p = header_words c p ++ crlf

-- The bytes of a packet on the wire.
unfoldable pub to_bytes : Codec → Packet → Bytes
to_bytes c p = header_line c p ++ (body_bytes c p ++ trailer)

-- A writer: what it has taken, and what the next calls of `write_all` come to. `some k` is an error
-- behind `k` bytes; a writer with no outcome left takes everything.
pub record Writer : Type 0 where
  pub sent : Bytes
  pub outcomes : List (Option ℕ)

write_with : List (Option ℕ) → Bytes → Bytes → Writer × Bool
write_with [] sent bs = (record { sent = sent ++ bs; outcomes = [] }, true)
write_with (none ∷ more) sent bs = (record { sent = sent ++ bs; outcomes = more }, true)
write_with (some k ∷ more) sent bs = (record { sent = sent ++ take k bs; outcomes = more }, false)

unfoldable pub write_all : Bytes → Writer → Writer × Bool
unfolding write_with
write_all bs w = write_with w.outcomes w.sent bs

-- `Packet::write`: the number of bytes, or none on an error of the writer.
unfoldable pub write : Codec → Packet → Writer → Writer × Option ℕ
write c p w =
    let (w1, line_done) = write_all (header_line c p) w in
    let (w2, body_done) = write_all (body_bytes c p) w1 in
    let (w3, trailer_done) = write_all trailer w2 in
    elim line_done [
      | false ↦ (w1, none)
      | true ↦ elim body_done [
        | false ↦ (w2, none)
        | true ↦ elim trailer_done [
          | false ↦ (w3, none)
          | true ↦ (w3, some (length (header_line c p) + length (body_bytes c p) + 5))
        ]
      ]
    ]

-- A writer that takes everything.
abbrev pub IsOpen : Writer → Type 0
IsOpen w = w.outcomes ≡ []
