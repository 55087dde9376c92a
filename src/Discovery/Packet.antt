-- ===== src/Discovery/Packet.antt =====
-- discovery/packet.rs: an announcement packet, taken apart; `process_packet` of observer.rs.
pub mod Sections
pub mod Signature
pub mod Sent
use scamp_rs.Auth.Services.{AuthorizedServices}
use scamp_rs.Common.{
  ℕ, Bool, true, false, not, ◌||◌, ◌&&◌, Option, none, some, List, [], ◌∷◌, ◌++◌, Text, Bytes,
  is_empty, ◌==◌, if◌then◌else◌,
}
use scamp_rs.Crypto.{Openssl, cert_pem_fingerprint, verify_rsa_sha256}
use scamp_rs.Discovery.Announcement.{AnnouncementBody, AnnouncementPacket}
use scamp_rs.Discovery.Parse.{parse_announcement_body}
use scamp_rs.Discovery.Parse.Result.{ParseFailure, Parsed, ok, err, panics, Reader}
use scamp_rs.Discovery.Registry.{Outside, ServiceRegistry, inject_packet}
use scamp_rs.Strings.Utf8.{from_utf8, as_bytes}

pub data AnnouncementParseError : Type 0 where
  missing_json missing_certificate missing_signature too_many_parts : AnnouncementParseError
  service_info_parse_error : ParseFailure → AnnouncementParseError

-- What `AnnouncementPacket::parse` comes to; the parser of the body may panic.
pub data PacketResult (F : Type 0) : Type 0 where
  parsed : AnnouncementPacket F → PacketResult F
  failed : AnnouncementParseError → PacketResult F
  panicked : PacketResult F

-- `str::split` at "\n\n"; `part` is what was read of the current part.
unfoldable pub split_blank_from : Text → Text → List Text
split_blank_from part [] = part ∷ []
split_blank_from part (c ∷ []) = (part ++ c ∷ []) ∷ []
split_blank_from part (c ∷ d ∷ s) =
    let cut = split_blank_from [] s in
    let more = split_blank_from (part ++ c ∷ []) (d ∷ s) in
    if c == 0x0A && d == 0x0A then part ∷ cut else more

abbrev pub split_blank : Text → List Text
split_blank = split_blank_from []

-- Whether a fourth part is there and not empty.
unfoldable pub has_extra : List Text → Bool
has_extra [] = false
has_extra (p ∷ ps) = not (is_empty p)

module _ {F : Type 0} (o : Reader F) (c : Openssl) where
  -- The fingerprint of the certificate, if it has one, is put into the body.
  unfoldable pub with_fingerprint : Text → AnnouncementBody F → AnnouncementBody F
  with_fingerprint cert body = elim (cert_pem_fingerprint c cert) [
    | none ↦ body
    | some fp ↦ record body { info = record body.info { fingerprint = some fp } }
  ]

  unfoldable pub packet_of : Text → Text → Text → PacketResult F
  unfolding with_fingerprint
  packet_of json_blob cert_pem sig_base64 = elim (parse_announcement_body o json_blob) [
    | ok body ↦ parsed (record {
      json_blob = json_blob;
      body = with_fingerprint cert_pem body;
      certificate = cert_pem;
      signature = sig_base64;
    })
    | err e ↦ failed (service_info_parse_error e)
    | panics ↦ panicked
  ]

  unfoldable pub parse_parts : List Text → PacketResult F
  unfolding packet_of has_extra
  parse_parts [] = failed missing_json
  parse_parts (json_blob ∷ []) = failed missing_certificate
  parse_parts (json_blob ∷ cert_pem ∷ []) = failed missing_signature
  parse_parts (json_blob ∷ cert_pem ∷ sig_base64 ∷ more) =
      if has_extra more then failed too_many_parts else packet_of json_blob cert_pem sig_base64

  -- `AnnouncementPacket::parse`
  unfoldable pub parse : Text → PacketResult F
  unfolding parse_parts split_blank_from
  parse v = parse_parts (split_blank v)

  -- `signature_is_valid`: an error counts as an invalid signature.
  unfoldable pub signature_is_valid : AnnouncementPacket F → Bool
  unfolding verify_rsa_sha256 as_bytes
  signature_is_valid packet =
      elim (verify_rsa_sha256 c packet.certificate (as_bytes packet.json_blob) packet.signature) [
        | some valid ↦ valid
        | none ↦ false
      ]

  -- The data behind a first 'R' or 'D'.
  unfoldable pub without_prefix : Bytes → Bytes
  without_prefix [] = []
  without_prefix (b ∷ bs) = if b == b'R' || b == b'D' then bs else b ∷ bs

  -- `process_packet` at the time `now`: the registry, unless the packet makes the task panic. A
  -- packet that fails leaves the registry as it is.
  unfoldable pub process_packet :
      (Bytes → Option Bytes)
      → Outside F
      → ℕ
      → Bytes
      → AuthorizedServices
      → ServiceRegistry F
      → Option (ServiceRegistry F)
  unfolding parse without_prefix
  process_packet zlib_decompress outside now bytes auth registry =
      elim (zlib_decompress (without_prefix bytes)) [
        | none ↦ some registry
        | some decompressed ↦ elim (from_utf8 decompressed) [
          | none ↦ some registry
          | some text ↦ elim (parse text) [
            | parsed packet ↦ some (inject_packet outside now packet auth registry)
            | failed e ↦ some registry
            | panicked ↦ none
          ]
        ]
      ]
