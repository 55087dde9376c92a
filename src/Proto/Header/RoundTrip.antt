-- ===== src/Proto/Header/RoundTrip.antt =====
-- header.rs: what is written is read back.
use scamp_rs.Common.{
  ℕ, ◌^◌, ◌<◌, ◌≡◌, ◌≢◌, refl, sym, ap, ◌∙◌, Option, none, some, arith, Text, codes, same, false,
}
use scamp_rs.Common.Words.{u64_mod}
use scamp_rs.Json.{Value, null, str, Items}
use scamp_rs.Proto.Header.{
  EnvelopeFormat, json, json_store, other, MessageType, request, reply, FlexInt, PacketHeader,
}
use scamp_rs.Proto.Header.Fields.{
  envelope_name, read_envelope, message_type_name, read_message_type, nullable_string,
  write_flex_int, read_flex_int, write_i32, read_i32, read_option_text, read_option_value,
}
use scamp_rs.Proto.Header.Struct.{to_json, of_json, of_fields}
use scamp_rs.Strings.Decimal.{to_string, parse_i64-to_string}

-- `Other` is for the names that have no variant of their own.
abbrev pub IsPlain : EnvelopeFormat → Type 0
IsPlain json = Unit {0}
IsPlain json_store = Unit {0}
IsPlain (other s) = (same s (codes "json") ≡ false) × (same s (codes "jsonstore") ≡ false)

read-envelope_name :
    (e : EnvelopeFormat) → IsPlain e → read_envelope (str (envelope_name e)) ≡ some e
unfolding read_envelope envelope_name same
read-envelope_name json h = refl
read-envelope_name json_store h = refl
read-envelope_name (other s) h = ground arith

read-message_type_name : (t : MessageType) → read_message_type (str (message_type_name t)) ≡ some t
unfolding read_message_type message_type_name same
read-message_type_name request = refl
read-message_type_name reply = refl

pub read-write_flex_int : (n : FlexInt) → n < u64_mod → read_flex_int (write_flex_int n) ≡ some n
unfolding read_flex_int write_flex_int
read-write_flex_int n h = ground arith

read-write_i32 : (n : ℕ) → n < 2 ^ 32 → read_i32 (write_i32 n) ≡ some n
unfolding read_i32 write_i32
read-write_i32 n h = ground arith

read_option_value_lem : (v : Value) → v ≢ null → read_option_value v ≡ some (some v)
unfolding read_option_value
read_option_value_lem null h = absurd (h refl)
read_option_value_lem v h = refl

-- The numbers fit their types, and no field holds a value that reads as another: an envelope
-- `Other("json")`, or `Some(null)` as the error data.
pub record IsWire (h : PacketHeader) : Type 0 where
  pub envelope : IsPlain h.envelope
  pub error_data : h.error_data ≢ some null
  pub request_id : h.request_id < u64_mod
  pub client_id : h.client_id < u64_mod
  pub version : h.version < 2 ^ 32

ruleset field_laws =
    (read-envelope_name, read-message_type_name, read-write_flex_int, read-write_i32)

-- The optional members are split on one by one, so that the others stand where they stand.
round :
    (of_array : Items → Option PacketHeader) (h : PacketHeader) (error error_code : Option Text)
    (error_data : Option Value)
    → IsWire h
    → error_data ≢ some null
    → let k = record h { error = error; error_code = error_code; error_data = error_data } in
      of_json of_array (to_json k) ≡ some k
unfolding of_json of_fields to_json nullable_string read_option_text same
round of_array h none none none w d =
    simp (field_laws, w.envelope, w.request_id, w.client_id, w.version)
round of_array h none none (some v) w d = simp (
  field_laws,
  w.envelope,
  w.request_id,
  w.client_id,
  w.version,
  read_option_value_lem v,
  (λ (q : v ≡ null). d (ap some q)),
)
round of_array h none (some c) none w d =
    simp (field_laws, w.envelope, w.request_id, w.client_id, w.version)
round of_array h none (some c) (some v) w d = simp (
  field_laws,
  w.envelope,
  w.request_id,
  w.client_id,
  w.version,
  read_option_value_lem v,
  (λ (q : v ≡ null). d (ap some q)),
)
round of_array h (some e) none none w d =
    simp (field_laws, w.envelope, w.request_id, w.client_id, w.version)
round of_array h (some e) none (some v) w d = simp (
  field_laws,
  w.envelope,
  w.request_id,
  w.client_id,
  w.version,
  read_option_value_lem v,
  (λ (q : v ≡ null). d (ap some q)),
)
round of_array h (some e) (some c) none w d =
    simp (field_laws, w.envelope, w.request_id, w.client_id, w.version)
round of_array h (some e) (some c) (some v) w d = simp (
  field_laws,
  w.envelope,
  w.request_id,
  w.client_id,
  w.version,
  read_option_value_lem v,
  (λ (q : v ≡ null). d (ap some q)),
)

-- A header is read back from its JSON value, if no field of it holds a value that reads as another:
-- the numbers fit their types, the envelope is not `Other` of a known name, and the error data is
-- not `Some(null)`.
pub of_json-to_json :
    (of_array : Items → Option PacketHeader) (h : PacketHeader)
    → IsWire h
    → of_json of_array (to_json h) ≡ some h
of_json-to_json of_array h w = round of_array h h.error h.error_code h.error_data w w.error_data

-- A request id below 2^63 is read alike from a JSON number and from a JSON string of its digits.
pub read_flex_int-str :
    (n : ℕ) → n < 2 ^ 63 → read_flex_int (str (to_string n)) ≡ read_flex_int (write_flex_int n)
unfolding read_flex_int
read_flex_int-str n h =
    parse_i64-to_string n (omega arith) ∙ sym (read-write_flex_int n (omega arith))
