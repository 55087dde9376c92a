-- ===== src/Discovery/Parse.antt =====
-- discovery/service_info/parse.rs: the announcement's JSON.
pub mod Result
pub mod Columns
pub mod Flags
pub mod V4
pub mod V3
use scamp_rs.Common.{
  ℕ, zero, suc, ◌+◌, ◌%◌, ◌^◌, Bool, true, false, not, ◌&&◌, Option, none, some, List, [], ◌∷◌,
  ◌++◌, map, Text, codes, length, is_empty, all, same, ltb, ◌==◌, if◌then◌else◌,
}
use scamp_rs.Discovery.Announcement.{
  CrudOp, create, read, update, delete, Flag, no_auth, timeout, other, crud_op, v3, v4, ServiceInfo,
  Action, AnnouncementParams, AnnouncementBody,
}
use scamp_rs.Common.{retain}
use scamp_rs.Json.{
  Value, null, bool, num, neg, float, str, arr, obj, Items, cons, Fields, get_field, as_str, as_u64,
  as_array, to_list,
}
use scamp_rs.Strings.Decimal.{parse_unsigned, to_string}
use scamp_rs.Strings.Fields.{split}
use scamp_rs.Discovery.Parse.Result.{
  ParseFailure, expected_json_array, invalid_root_array, json_error, missing_field, invalid_field,
  rle_value, rle_repeat_count, rle_chunk_len, invalid_v3_namespace, invalid_v3_action, Parsed, ok,
  err, panics, ◌>>=◌, ok_or, Reader,
}
use scamp_rs.Discovery.Parse.V4.{parse_v4_actions}
use scamp_rs.Discovery.Parse.V3.{parse_v3_actions}

module _ {F : Type 0} (o : Reader F) where
  unfoldable pub as_f64 : Value → Option F
  as_f64 (num n) = some (o.f64_of_u64 n)
  as_f64 (neg n) = some (o.f64_of_negative n)
  as_f64 (float n) = some (o.f64_of_bits n)
  as_f64 v = none

  -- The loop over the envelopes and the v4 objects: the envelopes and the actions.
  unfoldable pub envelopes_and_v4 : List Value → Parsed (List Text × List Action)
  unfolding parse_v4_actions
  envelopes_and_v4 [] = ok ([], [])
  envelopes_and_v4 (str envelope ∷ rest) = do
    (envelopes, actions) ← envelopes_and_v4 rest
    ok (envelope ∷ envelopes, actions)
  envelopes_and_v4 (obj fields ∷ rest) = do
    found ← parse_v4_actions o fields
    (envelopes, actions) ← envelopes_and_v4 rest
    ok (envelopes, found ++ actions)
  envelopes_and_v4 (v ∷ rest) = envelopes_and_v4 rest

  -- The nine elements.
  unfoldable pub parse_root : List Value → Parsed (AnnouncementBody F)
  unfolding envelopes_and_v4 parse_v3_actions as_f64
  parse_root (e0 ∷ e1 ∷ e2 ∷ e3 ∷ e4 ∷ e5 ∷ e6 ∷ e7 ∷ e8 ∷ []) = do
    version ← ok_or (missing_field (codes "version")) (as_u64 e0)
    checked ← (if not (version == 3) then err (invalid_field (codes "version")) else ok version)
    identity ← ok_or (missing_field (codes "identity")) (as_str e1)
    v3_sector ← ok_or (missing_field (codes "sector")) (as_str e2)
    weight ← ok_or (missing_field (codes "weight")) (as_u64 e3)
    interval ← ok_or (missing_field (codes "interval")) (as_u64 e4)
    uri ← ok_or (missing_field (codes "uri")) (as_str e5)
    envelopes_and_v4actions ← ok_or (missing_field (codes "envelopes_and_v4actions")) (as_array e6)
    v3_values ← ok_or (missing_field (codes "v3_actions")) (as_array e7)
    timestamp ← ok_or (missing_field (codes "timestamp")) (as_f64 e8)
    (v3_envelopes, v4_found) ← envelopes_and_v4 envelopes_and_v4actions
    v3_found ← parse_v3_actions o v3_values v3_sector v3_envelopes
    ok (record {
      info = record { identity = identity; uri = uri; fingerprint = none };
      params = record {
        weight = weight % 2 ^ 32;
        interval = interval % 2 ^ 32;
        timestamp = timestamp;
      };
      actions = v4_found ++ v3_found;
    })
  parse_root xs = err invalid_root_array

  unfoldable pub parse_announcement_body : Text → Parsed (AnnouncementBody F)
  unfolding parse_root
  parse_announcement_body v = do
    value ← ok_or json_error (o.from_str v)
    array ← ok_or expected_json_array (as_array value)
    parse_root array
