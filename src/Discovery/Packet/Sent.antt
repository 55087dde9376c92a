-- ===== src/Discovery/Packet/Sent.antt =====
-- discovery/packet.rs, `AnnouncementPacket::parse`, on the packet that service/announce.rs
-- builds, and the registry that takes it.
use scamp_rs.Common.{
  ℕ, ◌<◌, ◌*◌, ◌^◌, All, ◌≢◌, ◌↔◌, ◌≡◌, refl, sym, ap, subst, ◌∙◌, true, false, none, any, same,
  unwrap_or, some, List, [], ◌∷◌, ◌++◌, Text, Bytes, Option-cases, inl, inr,
}
use scamp_rs.Common.Maps.{get}
use scamp_rs.Common.Members.{In}
use scamp_rs.Crypto.{Openssl, cert_pem_fingerprint}
use scamp_rs.Discovery.Announcement.{Action, AnnouncementBody, AnnouncementPacket}
use scamp_rs.Json.{arr, of_list}
use scamp_rs.Server.Announce.{Crates, v3_classes, json_elements, build_announcement_packet}
use scamp_rs.Server.Announce.Actions.{ActionInfo}
use scamp_rs.Server.Announce.Read.{Announces, parse_announcement_body-json_elements}
use scamp_rs.Strings.Utf8.{from_utf8, as_bytes}
use scamp_rs.Discovery.Packet.{with_fingerprint, parsed, parse, packet_of, signature_is_valid}
use scamp_rs.Discovery.Packet.Signature.{verify_rsa_sha256-wrap_from}
use scamp_rs.Strings.Lines.{trim}
use scamp_rs.Strings.Split.{IsSolid}
use scamp_rs.Discovery.Packet.Sections.{IsBlock, wrap_from-IsBlock, parse-sections, sections_joined}
use scamp_rs.Discovery.Registry.{
  Outside, ActionEntry, empty_registry, inject_packet, find_action_with_envelope,
}
use scamp_rs.Discovery.Registry.Offered.{inject_packet-find_action_with_envelope}
use scamp_rs.Auth.Services.{AuthorizedServices, is_authorized}
use scamp_rs.Discovery.Parse.{parse_announcement_body}
use scamp_rs.Discovery.Parse.Result.{Reader, ok}
use scamp_rs.Server.Announce.Wrap.{wrap_from, wrapped}
use scamp_rs.Strings.Fields.Laws.{Lacks}

-- The fingerprint is all that the certificate changes.
with_fingerprint_keeps :
    {F : Type 0} (o : Reader F) (c : Openssl) (cert : Text) (body : AnnouncementBody F)
    → ((with_fingerprint o c cert body).actions ≡ body.actions)
      × ((with_fingerprint o c cert body).params ≡ body.params)
      × ((with_fingerprint o c cert body).info.identity ≡ body.info.identity)
      × ((with_fingerprint o c cert body).info.uri ≡ body.info.uri)
unfolding with_fingerprint
with_fingerprint_keeps o c cert body = elim (Option-cases (cert_pem_fingerprint c cert)) [
  | inl unknown ↦ rw (unknown, with_fingerprint) (refl, refl, refl, refl)
  | inr (f, known) ↦ rw (known, with_fingerprint) (refl, refl, refl, refl)
]

with_fingerprint-fingerprint :
    {F : Type 0} (o : Reader F) (c : Openssl) (cert : Text) (body : AnnouncementBody F)
    → body.info.fingerprint ≡ none
    → (with_fingerprint o c cert body).info.fingerprint ≡ cert_pem_fingerprint c cert
unfolding with_fingerprint
with_fingerprint-fingerprint o c cert body h = elim (Option-cases (cert_pem_fingerprint c cert)) [
  | inl unknown ↦ rw (unknown, with_fingerprint) h
  | inr (f, known) ↦ rw (known, with_fingerprint) refl
]

-- An active service and what it broadcasts.
module _ {F : Type 0} (o : Reader F) (c : Openssl) (crates : Crates)
    (identity sector uri blob cert : Text) (envelopes : List Text) (actions : List ActionInfo)
    (key_pem cert_pem signature : Bytes) (weight interval_secs timestamp : ℕ)
    (small : All (λ a. a.version < 2 ^ 31) actions) (named : v3_classes actions true ≢ [])
    (w32 : weight < 2 ^ 32) (i32 : interval_secs * 1000 < 2 ^ 32)
    (utf8 : from_utf8 cert_pem ≡ some (cert ++ 0x0A ∷ []))
    (printed : crates.to_string (
        arr (
          of_list (
            json_elements identity sector envelopes uri actions weight interval_secs true
              timestamp)))
      ≡ some blob)
    (read_back : o.from_str blob
      ≡ some (
          arr (
            of_list (
              json_elements identity sector envelopes uri actions weight interval_secs true
                timestamp))))
    (signed : crates.sign key_pem (as_bytes blob) ≡ some signature) (jb : IsBlock blob)
    (cb : IsBlock cert) (b64 : Lacks 0x0A (crates.base64 signature)) where
  abbrev broadcast : Text
  broadcast =
      blob
      ++ 0x0A
        ∷ 0x0A
        ∷ (cert ++ 0x0A ∷ 0x0A ∷ (wrap_from 76 0 (crates.base64 signature) ++ 0x0A ∷ 0x0A ∷ []))

  abbrev packet_with : AnnouncementBody F → AnnouncementPacket F
  packet_with body = record {
    json_blob = blob;
    body = with_fingerprint o c cert body;
    certificate = cert;
    signature = wrap_from 76 0 (crates.base64 signature);
  }

  build_announcement_packet-broadcast :
      build_announcement_packet crates identity sector envelopes uri actions key_pem cert_pem weight
        interval_secs true timestamp
      ≡ some (as_bytes broadcast)
  unfolding build_announcement_packet wrapped
  build_announcement_packet-broadcast =
      rw (utf8, printed, signed)
        (ap (λ t. some (as_bytes t))
          (sections_joined blob cert (wrap_from 76 0 (crates.base64 signature))))

  parse-broadcast :
      (body : AnnouncementBody F)
      → parse_announcement_body o blob ≡ ok body
      → parse o c broadcast ≡ parsed (packet_with body)
  unfolding packet_of with_fingerprint
  parse-broadcast body is_read =
      parse-sections o c blob cert (wrap_from 76 0 (crates.base64 signature)) jb cb
        (wrap_from-IsBlock 76 0 (crates.base64 signature) b64)
      ∙ rw (is_read, packet_of) refl

  -- What an active service broadcasts, once it is uncompressed, is parsed to a packet with the
  -- JSON text that was signed, with the certificate without its last line feed, with the base64
  -- text of the signature in lines of 76, with the service's identity, URI, weight and
  -- interval, and with the actions that the registered actions announce, and no other. The
  -- conditions: the certificate is UTF-8, ends in one line feed and has no blank line; the JSON
  -- text has no blank line and is read back; base64 gives no line feed; there is a named
  -- action; versions are not negative; the weight and the interval in milliseconds fit 32 bits.
  pub parse-build_announcement_packet :
      (text : Text) × (packet : AnnouncementPacket F) × (build_announcement_packet crates identity
          sector envelopes uri actions key_pem cert_pem weight interval_secs true timestamp
        ≡ some (as_bytes text))
      × (parse o c text ≡ parsed packet)
      × (packet.json_blob ≡ blob)
      × (packet.certificate ≡ cert)
      × (wrapped (crates.base64 signature) 76 ≡ packet.signature ++ 0x0A ∷ [])
      × (packet.body.info.identity ≡ identity)
      × (packet.body.info.uri ≡ uri)
      × (packet.body.params.weight ≡ weight)
      × (packet.body.params.interval ≡ interval_secs * 1000)
      × ((x : Action)
          → In x packet.body.actions
            ↔ ((a : ActionInfo) × In a actions × Announces o sector envelopes a x))
  unfolding wrapped
  parse-build_announcement_packet =
      let (body, is_read, info, weighs, lasts, stamped, found) =
        parse_announcement_body-json_elements o blob identity sector uri envelopes actions weight
          interval_secs timestamp small named w32 i32 read_back in
      let (acts, params, ident, addr) = with_fingerprint_keeps o c cert body in
      (
        broadcast,
        packet_with body,
        build_announcement_packet-broadcast,
        parse-broadcast body is_read,
        refl,
        refl,
        refl,
        ident ∙ ap (λ i. i.identity) info,
        addr ∙ ap (λ i. i.uri) info,
        ap (λ p. p.weight) params ∙ weighs,
        ap (λ p. p.interval) params ∙ lasts,
        λ x. rw acts (found x),
      )

  -- The registry of a client that has the signatures checked by `signature_is_valid`.
  abbrev pub checking : Outside F → Outside F
  checking out = record out { signature_is_valid = signature_is_valid o c }

  -- From a service to a request, over `AnnouncementPacket::parse` and a registry that was
  -- empty: what the service broadcasts, once it is uncompressed, is parsed to a packet, and
  -- when the packet is injected, a request for a registered action `a`, under the sector, path
  -- and version that `x` has, gets an entry, whenever it is made and whatever the random
  -- number. The conditions, besides those of `parse-build_announcement_packet`: base64 has no
  -- whitespace and is decoded to what was encoded; openssl verifies the signature that was made
  -- over the JSON text, under the certificate without its outer whitespace; the announcement
  -- has not outlived its interval; `x` is what `a` announces; the certificate is authorized for
  -- it; the weight is not 0; the envelope is one of the action's; and `to_lowercase` changes
  -- nothing the second time.
  pub build_announcement_packet-find_action_with_envelope :
      (out : Outside F) (now later random : ℕ) (auth : AuthorizedServices) (a : ActionInfo)
      (x : Action) (envelope : Text)
      → ((t : Text) → out.to_lowercase (out.to_lowercase t) ≡ out.to_lowercase t)
      → IsSolid (crates.base64 signature)
      → c.base64_decode (crates.base64 signature) ≡ some signature
      → c.verify (as_bytes (trim cert)) (as_bytes blob) signature ≡ some true
      → out.outlived now (interval_secs * 1000) (o.f64_of_bits timestamp) ≡ false
      → In a actions
      → Announces o sector envelopes a x
      → is_authorized (unwrap_or (cert_pem_fingerprint c cert) []) x.sector x.path auth ≡ true
      → 0 < weight
      → any (λ env. same env envelope) x.envelopes ≡ true
      → (text : Text) × (packet : AnnouncementPacket F) × (e : ActionEntry F)
        × (build_announcement_packet crates identity sector envelopes uri actions key_pem cert_pem
              weight interval_secs true timestamp
            ≡ some (as_bytes text))
        × (parse o c text ≡ parsed packet)
        × (find_action_with_envelope
              (checking out)
              later
              random
              x.sector
              x.path
              x.version
              envelope
              (inject_packet (checking out) now packet auth empty_registry)
            ≡ some e)
  unfolding get signature_is_valid
  build_announcement_packet-find_action_with_envelope out now later random auth a x envelope twice
        solid decoded accepted fresh there announced allowed weighty spoken =
      let (body, is_read, info, weighs, lasts, stamped, found) =
        parse_announcement_body-json_elements o blob identity sector uri envelopes actions weight
          interval_secs timestamp small named w32 i32 read_back in
      let (acts, params, ident, addr) = with_fingerprint_keeps o c cert body in
      let print = with_fingerprint-fingerprint o c cert body (ap (λ i. i.fingerprint) info) in
      let packet = packet_with body in
      let verified =
        verify_rsa_sha256-wrap_from c cert (as_bytes blob) (crates.base64 signature) signature 76
          solid decoded
        ∙ accepted in
      let good : signature_is_valid o c packet ≡ true = rw (signature_is_valid, verified) refl in
      let (e, is_found) =
        inject_packet-find_action_with_envelope (checking out) now later random packet auth
          empty_registry x envelope twice
          (
            good,
            subst (λ p. out.outlived now p.interval p.timestamp ≡ false) (sym params)
                (rw (lasts, stamped) fresh),
            inl refl,
          )
          (subst (In x) (sym acts) ((found x).1 (a, there, announced)))
          (subst (λ f. is_authorized (unwrap_or f []) x.sector x.path auth ≡ true) (sym print)
            allowed)
          (subst (λ p. 0 < p.weight) (sym params) (rw weighs weighty)) spoken in
      (
        broadcast,
        packet,
        e,
        build_announcement_packet-broadcast,
        parse-broadcast body is_read,
        is_found,
      )
