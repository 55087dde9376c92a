-- ===== src/Proto/Packet.antt =====
-- scamp/src/transport/beepish/proto/packet.rs: packets, their bytes, and the parser.
pub mod Write
pub mod Parse
pub mod Frame
pub mod Line
pub mod Kept
pub mod Stable
pub mod RoundTrip
use scamp_rs.Common.{ℕ, Option, none, some, Text, Bytes, codes, same, if◌then◌else◌}
use scamp_rs.Json.{Value, JsonText, Items}
use scamp_rs.Proto.{PacketType, header, data_chunk, eof, txerr, ack, ping, pong}
use scamp_rs.Proto.Header.{PacketHeader}
use scamp_rs.Proto.Header.Struct.{to_json, of_json}

pub record Packet : Type 0 where
  pub packet_type : PacketType
  pub msg_no : ℕ
  pub packet_header : Option PacketHeader
  pub body : Bytes

-- The reasons of `ParseResult::Fatal`, one for each message.
pub data ParseError : Type 0 where
  bare_newline overlong_line invalid_utf8 malformed_line invalid_msg_no : ParseError
  invalid_size too_large malformed_trailer malformed_header : ParseError
  unexpected_type : Text → ParseError

pub data ParseResult : Type 0 where
  too_short : ParseResult
  need_bytes : ℕ → ParseResult
  success : Packet → ℕ → ParseResult
  dropped : ℕ → ParseResult
  fatal : ParseError → ParseResult

-- The JSON codec, which is not part of the repository: its text form, and what it makes of an
-- array in the place of a header.
pub record Codec : Type 0 where
  pub text : JsonText
  pub of_array : Items → Option PacketHeader

-- `serde_json::to_writer` at a header.
unfoldable pub encode_header : Codec → PacketHeader → Bytes
encode_header c h = c.text.print (to_json h)

-- `serde_json::from_slice` at a header.
unfoldable pub decode_header : Codec → Bytes → Option PacketHeader
decode_header c bs = elim (c.text.parse bs) [ none ↦ none | some v ↦ of_json c.of_array v ]

unfoldable pub type_name : PacketType → Text
type_name header = codes "HEADER"
type_name data_chunk = codes "DATA"
type_name eof = codes "EOF"
type_name txerr = codes "TXERR"
type_name ack = codes "ACK"
type_name ping = codes "PING"
type_name pong = codes "PONG"

unfoldable pub type_of_name : Text → Option PacketType
type_of_name s =
    if same s (codes "HEADER")
    then some header
    else if same s (codes "DATA")
    then some data_chunk
    else if same s (codes "EOF")
    then some eof
    else if same s (codes "TXERR")
    then some txerr
    else if same s (codes "ACK")
    then some ack
    else if same s (codes "PING")
    then some ping
    else if same s (codes "PONG")
    then some pong
    else none
