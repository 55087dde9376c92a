-- ===== src/Tests/Announced.antt =====
-- Announcements, on concrete inputs.
use scamp_rs.Common.{
  ℕ, ◌≡◌, ◌↔◌, refl, Bool, true, false, none, some, List, [], ◌∷◌, ◌++◌, map, Text, codes, same,
  arith, starts_with,
}
use scamp_rs.Common.Members.{In}
use scamp_rs.Crypto.{Openssl}
use scamp_rs.Discovery.Announcement.{Action, AnnouncementPacket}
use scamp_rs.Discovery.Cache.{
  BufReader, ended, failing, bytes, ends, Item, item, item_of, next, items, items_from, position,
  size, reads_size,
}
use scamp_rs.Discovery.Cache.Failing.{GoesOn, items_from_failing}
use scamp_rs.Discovery.Cache.Records.{file_of, items-file_of, next-straddling}
use scamp_rs.Discovery.Cache.Rounds.{items_from_total}
use scamp_rs.Discovery.Packet.{parse, parsed}
use scamp_rs.Discovery.Packet.Sections.{has_blank}
use scamp_rs.Discovery.Packet.Sent.{
  parse-build_announcement_packet, build_announcement_packet-find_action_with_envelope,
}
use scamp_rs.Discovery.Registry.{
  Outside, ActionEntry, empty_registry, inject_packet, find_action_with_envelope,
}
use scamp_rs.Discovery.Packet.{signature_is_valid}
use scamp_rs.Auth.Services.{AuthorizedServices, empty_services, is_authorized, is_meta, has_colon}
use scamp_rs.Server.Announce.Heard.{heard}
use scamp_rs.Common.{inl, leb, ◌+◌, retain, unwrap_or}
use scamp_rs.Crypto.{cert_pem_fingerprint}
use scamp_rs.Discovery.Parse.Flags.{action_path, parse_each}
use scamp_rs.Server.Announce.Actions.{is_announced, sort}
use scamp_rs.Common.Maps.{get}
use scamp_rs.Discovery.Announcement.{crud_op, read, timeout}
use scamp_rs.Discovery.Parse.{parse_announcement_body}
use scamp_rs.Discovery.Parse.Columns.{unrle, text_column}
use scamp_rs.Discovery.Parse.Result.{Reader, ok, err, missing_field}
use scamp_rs.Json.{Fields, end, field, get_field, arr, of_list}
use scamp_rs.Server.Announce.{Crates, json_elements, v3_classes, build_announcement_packet}
use scamp_rs.Server.Announce.Actions.{ActionInfo, class_map, class_arrays, add_action, push_class}
use scamp_rs.Server.Announce.Read.{Announces, parse_announcement_body_inactive}
use scamp_rs.Server.Announce.Rle.{rle_encode_strings}
use scamp_rs.Server.Announce.Rle.Decoded.{unrle-rle_encode_strings}
use scamp_rs.Server.Announce.Wrap.{wrapped}
use scamp_rs.Strings.Decimal.{parse_unsigned}
use scamp_rs.Strings.Fields.{rsplit_once}
use scamp_rs.Strings.Split.{is_whitespace}
use scamp_rs.Strings.Utf8.{from_utf8, from_utf8_ascii, as_bytes}

abbrev namespaces : List Text
namespaces = codes "api" ∷ codes "api" ∷ codes "web" ∷ []

abbrev columns : Fields
columns = field (codes "acns") (arr (of_list (rle_encode_strings namespaces))) end

unrle-rle_encode_strings_example : unrle text_column (codes "acns") columns true 0 ≡ ok namespaces
unfolding get_field same
unrle-rle_encode_strings_example =
    unrle-rle_encode_strings (codes "acns") columns true 0 namespaces refl

abbrev status : ActionInfo
status = record { name = codes "api.status"; version = 2; flags = codes "read" ∷ codes "t30" ∷ [] }

-- A reader that knows one text, and numbers as they are.
abbrev reader : Bool → Reader ℕ
reader active = record {
  from_str = λ t. some (
      arr (
        of_list (
          json_elements (codes "svc:1") (codes "main") (codes "json" ∷ []) (codes "u") (status ∷ [])
            1 5 active 7)));
  is_digit = λ c. true;
  to_lowercase = λ t. t;
  f64_of_u64 = λ n. n;
  f64_of_negative = λ n. n;
  f64_of_bits = λ n. n;
}

parse_announcement_body_inactive_example :
    parse_announcement_body (reader false) (codes "[]") ≡ err (missing_field (codes "v3_actions"))
unfolding v3_classes
parse_announcement_body_inactive_example =
    parse_announcement_body_inactive (reader false) (codes "[]") (codes "svc:1") (codes "main")
      (codes "u") (codes "json" ∷ []) (status ∷ []) 1 5 7 false refl refl

abbrev openssl : Openssl
openssl = record {
  sha1 = λ bs. bs;
  base64_decode = λ t. some (7 ∷ []);
  verify = λ k m s. some (same s (7 ∷ []));
}

abbrev crates : Crates
crates = record {
  to_string = λ v. some (codes "[]");
  sign = λ k m. some (7 ∷ []);
  base64 = λ s. codes "Bw==";
}

v3_classes-ne-nil : v3_classes (status ∷ []) true ≡ [] → ⊥
unfolding v3_classes class_map class_arrays add_action push_class rsplit_once
v3_classes-ne-nil e = ground (arith, e)

from_utf8_certificate : from_utf8 (codes "CERT\n") ≡ some (codes "CERT\n")
from_utf8_certificate =
    from_utf8_ascii (codes "CERT\n")
      (omega arith, (omega arith, (omega arith, (omega arith, (omega arith, tt)))))

parse-build_announcement_packet_example :
    (text : Text) × (packet : AnnouncementPacket ℕ) × (build_announcement_packet crates
        (codes "svc:1")
        (codes "main")
        (codes "json" ∷ [])
        (codes "u")
        (status ∷ [])
        []
        (codes "CERT\n")
        1
        5
        true
        7
      ≡ some (as_bytes text))
    × (parse (reader true) openssl text ≡ parsed packet)
    × (packet.json_blob ≡ codes "[]")
    × (packet.certificate ≡ codes "CERT")
    × (wrapped (codes "Bw==") 76 ≡ packet.signature ++ 0x0A ∷ [])
    × (packet.body.info.identity ≡ codes "svc:1")
    × (packet.body.info.uri ≡ codes "u")
    × (packet.body.params.weight ≡ 1)
    × (packet.body.params.interval ≡ 5000)
    × ((x : Action)
        → In x packet.body.actions ↔ (
            (a : ActionInfo) × In a (status ∷ [])
            × Announces (reader true) (codes "main") (codes "json" ∷ []) a x))
unfolding has_blank
parse-build_announcement_packet_example =
    parse-build_announcement_packet (reader true) openssl crates (codes "svc:1") (codes "main")
      (codes "u") (codes "[]") (codes "CERT") (codes "json" ∷ []) (status ∷ []) [] (codes "CERT\n")
      (7 ∷ []) 1 5 7 (omega arith, tt) v3_classes-ne-nil (omega arith) (omega arith)
      from_utf8_certificate refl refl refl refl refl (refl, (refl, (refl, (refl, tt))))

abbrev outside : Outside ℕ
outside = record {
  at_most = leb;
  outlived = λ now interval timestamp. leb (timestamp + interval) now;
  to_lowercase = λ t. t;
  signature_is_valid = signature_is_valid (reader true) openssl;
}

abbrev services : AuthorizedServices
services = record empty_services {
  entries = (unwrap_or (cert_pem_fingerprint openssl (codes "CERT")) [], (λ t. true) ∷ []) ∷ [];
}

abbrev api_status : Action
api_status =
    heard (reader true) (codes "main") (codes "json" ∷ []) (codes "api") (codes "status") 2
      (crud_op read ∷ timeout 30 ∷ [])

status-flags :
    parse_each (reader true) (sort (retain is_announced status.flags))
    ≡ ok (crud_op read ∷ timeout 30 ∷ [])
unfolding parse_each sort retain is_announced same parse_unsigned
status-flags = refl

status-name : rsplit_once 0x2E status.name ≡ some (codes "api", codes "status")
unfolding rsplit_once
status-name = refl

status-is_authorized :
    is_authorized
      (unwrap_or (cert_pem_fingerprint openssl (codes "CERT")) [])
      api_status.sector
      api_status.path
      services
    ≡ true
unfolding is_authorized is_meta has_colon get cert_pem_fingerprint same action_path starts_with
status-is_authorized = refl

build_announcement_packet-find_action_with_envelope_example :
    (text : Text) × (packet : AnnouncementPacket ℕ) × (e : ActionEntry ℕ)
    × (build_announcement_packet crates
          (codes "svc:1")
          (codes "main")
          (codes "json" ∷ [])
          (codes "u")
          (status ∷ [])
          []
          (codes "CERT\n")
          1
          5
          true
          7
        ≡ some (as_bytes text))
    × (parse (reader true) openssl text ≡ parsed packet)
    × (find_action_with_envelope outside 90 3
          (codes "main")
          (codes "api.status")
          2
          (codes "json")
          (inject_packet outside 8 packet services empty_registry)
        ≡ some e)
unfolding has_blank action_path same is_whitespace
build_announcement_packet-find_action_with_envelope_example =
    build_announcement_packet-find_action_with_envelope (reader true) openssl crates (codes "svc:1")
      (codes "main") (codes "u") (codes "[]") (codes "CERT") (codes "json" ∷ []) (status ∷ []) []
      (codes "CERT\n") (7 ∷ []) 1 5 7 (omega arith, tt) v3_classes-ne-nil (omega arith)
      (omega arith) from_utf8_certificate refl refl refl refl refl
      (refl, (refl, (refl, (refl, tt)))) outside 8 90 3 services status api_status (codes "json")
      (λ t. refl) (refl, (refl, (refl, (refl, tt)))) refl refl refl (inl refl)
      (
        codes "api",
        codes "status",
        (crud_op read ∷ timeout 30 ∷ []),
        status-name,
        status-flags,
        refl,
      )
      status-is_authorized (omega arith) refl

abbrev one_read : BufReader
one_read = record { buffer = []; reads = bytes (file_of (codes "x" ∷ codes "yz" ∷ [])) ended }

items_from_total_example :
    (is : List (Item ℕ)) × (items_from (reader true) openssl 100 one_read ≡ some is)
    × (items (reader true) openssl one_read ≡ some is)
unfolding size reads_size ends
items_from_total_example = items_from_total (reader true) openssl 100 one_read refl (omega arith)

items-file_of_example :
    items (reader true) openssl one_read
    ≡ some (map (item_of (reader true) openssl) (codes "x" ∷ codes "yz" ∷ []))
unfolding position starts_with
items-file_of_example =
    items-file_of (reader true) openssl (codes "x" ∷ codes "yz" ∷ [])
      ((refl, refl), ((refl, refl), tt))

next-straddling_example :
    next
      (reader true)
      openssl
      (record { buffer = []; reads = bytes (codes "x\n%%") (bytes (codes "%\ny") ended) })
    ≡ item
        (item_of (reader true) openssl (codes "x\n%%%\ny"))
        (record { buffer = []; reads = ended })
unfolding position starts_with
next-straddling_example =
    next-straddling (reader true) openssl (codes "x\n%%") (codes "%\ny") refl refl refl refl

items_from_failing_example :
    GoesOn (next (reader true) openssl (record { buffer = codes "x\n%%%\ny"; reads = failing }))
    × (items_from (reader true) openssl 100 (record { buffer = codes "x\n%%%\ny"; reads = failing })
        ≡ none)
items_from_failing_example = items_from_failing (reader true) openssl 100 (codes "x\n%%%\ny")
