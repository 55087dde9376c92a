-- ===== src/Proto/Header/Fields.antt =====
-- header.rs: the serializer and the deserializer of each field. A failure of serde is `none`.
use scamp_rs.Common.{ℕ, ◌+◌, ◌-◌, ◌^◌, Option, none, some, Text, codes, same, if◌then◌else◌, ltb}
use scamp_rs.Common.Words.{u64_mod}
use scamp_rs.Json.{Value, null, num, neg, str}
use scamp_rs.Proto.Header.{
  EnvelopeFormat, json, json_store, other, MessageType, request, reply, FlexInt,
}
use scamp_rs.Strings.Decimal.{parse_i64}

-- `Serialize for EnvelopeFormat`; also `envelope_str` of requester.rs.
unfoldable pub envelope_name : EnvelopeFormat → Text
envelope_name json = codes "json"
envelope_name json_store = codes "jsonstore"
envelope_name (other s) = s

-- `Deserialize for EnvelopeFormat`, behind `String::deserialize`.
unfoldable pub envelope_of : Text → EnvelopeFormat
envelope_of s =
    if same s (codes "json")
    then json
    else if same s (codes "jsonstore")
    then json_store
    else other s

unfoldable pub read_envelope : Value → Option EnvelopeFormat
unfolding envelope_of
read_envelope (str s) = some (envelope_of s)
read_envelope v = none

unfoldable pub message_type_name : MessageType → Text
message_type_name request = codes "request"
message_type_name reply = codes "reply"

unfoldable pub read_message_type : Value → Option MessageType
read_message_type (str s) =
    if same s (codes "request")
    then some request
    else if same s (codes "reply")
    then some reply
    else none
read_message_type v = none

-- `nullable_string`: null is the empty string.
unfoldable pub nullable_string : Value → Option Text
nullable_string null = some (codes "")
nullable_string (str s) = some s
nullable_string v = none

-- `Serialize for FlexInt`: `serialize_i64`.
unfoldable pub write_flex_int : FlexInt → Value
write_flex_int n = if ltb n (2 ^ 63) then num n else neg (u64_mod - n - 1)

-- `Deserialize for FlexInt`: `visit_u64` casts with `as i64`, `visit_str` parses.
unfoldable pub read_flex_int : Value → Option FlexInt
read_flex_int (num n) = some n
read_flex_int (neg n) = some (u64_mod - (n + 1))
read_flex_int (str s) = parse_i64 s
read_flex_int v = none

-- serde's own codec of an `i32`.
unfoldable pub write_i32 : ℕ → Value
write_i32 n = if ltb n (2 ^ 31) then num n else neg (2 ^ 32 - n - 1)

unfoldable pub read_i32 : Value → Option ℕ
read_i32 (num n) = if ltb n (2 ^ 31) then some n else none
read_i32 (neg n) = if ltb n (2 ^ 31) then some (2 ^ 32 - (n + 1)) else none
read_i32 v = none

-- serde's own codec of an `Option`: null is none.
unfoldable pub read_option_text : Value → Option (Option Text)
read_option_text null = some none
read_option_text (str s) = some (some s)
read_option_text v = none

unfoldable pub read_option_value : Value → Option (Option Value)
read_option_value null = some none
read_option_value v = some (some v)
