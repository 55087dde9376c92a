-- ===== src/Proto/Header/Struct.antt =====
-- header.rs, `PacketHeader`: the codec that `derive` makes of the struct's serde attributes.
use scamp_rs.Common.{Option, none, some, ◌>>=◌, Bool, true, false, Text, codes, same, if◌then◌else◌}
use scamp_rs.Json.{Value, str, arr, obj, Items, Fields, end, field}
use scamp_rs.Proto.Header.{json, request, PacketHeader}
use scamp_rs.Proto.Header.Fields.{
  envelope_name, read_envelope, message_type_name, read_message_type, nullable_string,
  write_flex_int, read_flex_int, write_i32, read_i32, read_option_text, read_option_value,
}

absent : Text → Fields → Bool
absent k end = true
absent k (field j v fs) = if same j k then false else absent k fs

-- The member `k` of an object: none if it occurs twice, which is an error.
member : Text → Fields → Option (Option Value)
unfolding absent
member k end = some none
member k (field j v fs) =
    let rest = member k fs in if same j k then if absent k fs then some (some v) else none else rest

-- A field under `#[serde(default)]`.
read_field {ℓ} : {A : Type ℓ} → Text → A → (Value → Option A) → Fields → Option A
unfolding member
read_field k default read fs = do
  found ← member k fs
  elim found [ none ↦ some default | some v ↦ read v ]

-- A field under `skip_serializing_if = "Option::is_none"`.
write_option {ℓ} : {A : Type ℓ} → Text → (A → Value) → Option A → Fields → Fields
write_option k write none rest = rest
write_option k write (some a) rest = field k (write a) rest

-- `Serialize for PacketHeader`.
unfoldable pub to_json : PacketHeader → Value
unfolding write_option
to_json h = obj (
    field (codes "action") (str h.action) (
      field (codes "envelope") (str (envelope_name h.envelope)) (
        write_option (codes "error") str h.error (
          write_option (codes "error_code") str h.error_code (
            write_option (codes "error_data") (λ v. v) h.error_data
              (field (codes "request_id") (write_flex_int h.request_id) (
                field (codes "client_id") (write_flex_int h.client_id) (
                  field (codes "ticket") (str h.ticket) (
                    field (codes "identifying_token") (str h.identifying_token) (
                      field (codes "type") (str (message_type_name h.message_type))
                        (field (codes "version") (write_i32 h.version) end)))))))))))

-- `Deserialize for PacketHeader`, from the members of an object.
unfoldable pub of_fields : Fields → Option PacketHeader
unfolding read_field
of_fields fs = do
  action ← read_field (codes "action") (codes "") nullable_string fs
  envelope ← read_field (codes "envelope") json read_envelope fs
  error ← read_field (codes "error") none read_option_text fs
  error_code ← read_field (codes "error_code") none read_option_text fs
  error_data ← read_field (codes "error_data") none read_option_value fs
  request_id ← read_field (codes "request_id") 0 read_flex_int fs
  client_id ← read_field (codes "client_id") 0 read_flex_int fs
  ticket ← read_field (codes "ticket") (codes "") nullable_string fs
  identifying_token ← read_field (codes "identifying_token") (codes "") nullable_string fs
  message_type ← read_field (codes "type") request read_message_type fs
  version ← read_field (codes "version") 0 read_i32 fs
  some (record {
    action = action;
    envelope = envelope;
    error = error;
    error_code = error_code;
    error_data = error_data;
    request_id = request_id;
    client_id = client_id;
    ticket = ticket;
    identifying_token = identifying_token;
    message_type = message_type;
    version = version;
  })

-- A header is read from an object; the derived code takes an array too, by position, which is a
-- parameter here.
unfoldable pub of_json : (Items → Option PacketHeader) → Value → Option PacketHeader
of_json of_array (obj fs) = of_fields fs
of_json of_array (arr xs) = of_array xs
of_json of_array v = none
