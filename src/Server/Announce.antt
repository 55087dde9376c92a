-- ===== src/Server/Announce.antt =====
-- service/announce.rs: the announcement that a service sends.
pub mod Rle
pub mod Actions
pub mod Wrap
pub mod FlagText
pub mod Classes
pub mod Heard
pub mod Read
use scamp_rs.Common.{
  ◌>>=◌, ℕ, zero, suc, ◌+◌, ◌*◌, ◌/◌, ◌%◌, ◌^◌, Bool, true, false, not, ◌&&◌, ◌||◌, Option, none,
  some, List, [], ◌∷◌, ◌++◌, map, Text, Bytes, codes, length, is_empty, same, ltb, leb, ◌==◌,
  if◌then◌else◌,
}
use scamp_rs.Common.{retain}
use scamp_rs.Json.{Value, null, num, str, arr, obj, end, field, float, of_list}
use scamp_rs.Proto.Header.Fields.{write_i32}
use scamp_rs.Server.{RegisteredAction}
use scamp_rs.Strings.Decimal.{parse_unsigned}
use scamp_rs.Strings.Fields.{rsplit_once, joined_by}
use scamp_rs.Strings.Utf8.{from_utf8, as_bytes}
use scamp_rs.Server.Announce.Actions.{ActionInfo, class_map, class_arrays}
use scamp_rs.Server.Announce.Rle.{rle_encode_strings, rle_encode_numbers}
use scamp_rs.Server.Announce.Wrap.{wrapped}

-- The crates: `serde_json::to_string`, the RSA signature of bytes under a key, and base64. A failure
-- is `none`.
pub record Crates : Type 0 where
  pub to_string : Value → Option Text
  pub sign : Bytes → Bytes → Option Bytes
  pub base64 : Bytes → Text

-- The v4 extension; its columns are empty.
unfoldable pub v4_hash : Value
unfolding rle_encode_strings rle_encode_numbers
v4_hash = obj (
    field (codes "acenv") (arr (of_list (rle_encode_strings []))) (
      field (codes "acflag") (arr (of_list (rle_encode_strings []))) (
        field (codes "acname") (arr (of_list (rle_encode_strings []))) (
          field (codes "acns") (arr (of_list (rle_encode_strings []))) (
            field (codes "acsec") (arr (of_list (rle_encode_strings []))) (
              field (codes "acver") (arr (of_list (rle_encode_numbers [])))
                (field (codes "vmaj") (num 4) (field (codes "vmin") (num 0) end))))))))

-- The classes of the actions: none of a service that is not active.
unfoldable pub v3_classes : List ActionInfo → Bool → List Value
unfolding class_map class_arrays
v3_classes actions active = if active then class_arrays (class_map actions []) else []

unfoldable pub null_if_empty : List Value → Value
null_if_empty [] = null
null_if_empty (v ∷ vs) = arr (of_list (v ∷ vs))

-- `json_array`; `timestamp` is the bits of the time as an `f64`.
unfoldable pub json_elements :
    Text → Text → List Text → Text → List ActionInfo → ℕ → ℕ → Bool → ℕ → List Value
unfolding v4_hash v3_classes null_if_empty
json_elements identity sector envelopes uri actions weight interval_secs active timestamp =
    num 3
    ∷ str identity
    ∷ str sector
    ∷ num (if active then weight else 0)
    ∷ num (interval_secs * 1000)
    ∷ str uri
    ∷ arr (of_list (map str envelopes ++ v4_hash ∷ []))
    ∷ null_if_empty (v3_classes actions active)
    ∷ float timestamp
    ∷ []

unfoldable pub build_announcement_packet :
    Crates
    → Text
    → Text
    → List Text
    → Text
    → List ActionInfo
    → Bytes
    → Bytes
    → ℕ
    → ℕ
    → Bool
    → ℕ
    → Option Bytes
unfolding json_elements wrapped from_utf8 as_bytes
build_announcement_packet o identity sector envelopes uri actions key_pem cert_pem weight
      interval_secs active timestamp =
    do
      cert_pem_str ← from_utf8 cert_pem
      json_blob ← o.to_string (
          arr (
            of_list (
              json_elements identity sector envelopes uri actions weight interval_secs active
                timestamp)))
      signature ← o.sign key_pem (as_bytes json_blob)
      let sig_base64 = wrapped (o.base64 signature) 76
      some (
          as_bytes
            (json_blob ++ codes "\n\n" ++ cert_pem_str ++ codes "\n" ++ sig_base64 ++ codes "\n"))
