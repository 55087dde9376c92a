-- ===== src/Server/Listener/Bound.antt =====
-- service/listener.rs and discovery/service_info/mod.rs: the URI of a bound service, read by a client.
use mathlib.Core.Option.{some-injective}
use scamp_rs.Common.{
  ℕ, zero, suc, ◌≤◌, ◌≡◌, refl, sym, ap, subst, ◌∙◌, Bool, true, false, Option, some, [], ◌∷◌, ◌++◌,
  append_assoc, append-nil, Text, Bytes, All, All-append, codes, unwrap_or, starts_with, Bool-cases,
  Option-cases, inl, inr, ◌==◌, arith,
}
use scamp_rs.Discovery.Address.{split_text_from, socket_addr}
use scamp_rs.Discovery.Announcement.{ServiceInfo}
use scamp_rs.Server.Listener.{ScampService, uri, uri_of, random_port, try_ports, bind_pem}
use scamp_rs.Strings.Decimal.{to_string, to_string-All, IsDigit, parse_unsigned-to_string}
use scamp_rs.Strings.Fields.Laws.{Lacks, split-joined_by, number-Lacks}

starts_with-Lacks : (c : ℕ) (s : Text) → Lacks 0x2F s → starts_with (codes "://") (c ∷ s) ≡ false
unfolding starts_with
starts_with-Lacks c [] h = ground arith
starts_with-Lacks c (d ∷ s) h = ground (arith, h.0)

-- Without a slash there is no separator.
split_text_from-Lacks :
    (part s : Text) → Lacks 0x2F s → split_text_from (codes "://") 0 part s ≡ (part ++ s) ∷ []
unfolding split_text_from
split_text_from-Lacks part [] h = ap (λ t. t ∷ []) (sym (append-nil part))
split_text_from-Lacks part (c ∷ s) h =
    rw (starts_with-Lacks c s h.1) (
      split_text_from-Lacks (part ++ c ∷ []) s h.1
      ∙ ap (λ t. t ∷ []) (append_assoc part (c ∷ []) s))

digits_lack_colon : (w : Text) → All IsDigit w → Lacks 0x3A w
digits_lack_colon [] h = tt
digits_lack_colon (c ∷ w) h = (ground (arith, h.0.1), digits_lack_colon w h.1)

after_scheme :
    (host : Text) (port : ℕ)
    → Lacks 0x2F host
    → split_text_from (codes "://") 0 [] (codes "beepish+tls://" ++ (host ++ 0x3A ∷ to_string port))
      ≡ codes "beepish+tls" ∷ (host ++ 0x3A ∷ to_string port) ∷ []
unfolding split_text_from starts_with
after_scheme host port h =
    ap (λ ts. codes "beepish+tls" ∷ ts)
      (split_text_from-Lacks [] (host ++ 0x3A ∷ to_string port) (
        All-append (λ c. (c == 0x2F) ≡ false) host (0x3A ∷ to_string port) h
          (refl, number-Lacks 0x2F port (omega arith))))

socket_addr-uri_of :
    {Ip : Type 0} (parse_ip : Text → Option Ip) (host : Text) (port : ℕ) (ip : Ip)
    (info : ServiceInfo)
    → Lacks 0x2F host
    → Lacks 0x3A host
    → port ≤ 0xFFFF
    → parse_ip host ≡ some ip
    → info.uri ≡ codes "beepish+tls://" ++ (host ++ 0x3A ∷ to_string port)
    → socket_addr parse_ip info ≡ some (ip, port)
unfolding socket_addr
socket_addr-uri_of parse_ip host port ip info slash colon fits known e =
    rw
      (
        e,
        after_scheme host port slash,
        split-joined_by 0x3A host (to_string port ∷ [])
            (colon, (digits_lack_colon (to_string port) (to_string-All port), tt)),
        known,
        parse_unsigned-to_string 0xFFFF port fits,
      )
      refl

random_port-bounds : (random : ℕ) → (30100 ≤ random_port random) × (random_port random ≤ 30399)
unfolding random_port
random_port-bounds random = (omega arith, omega arith)

try_ports-bounds :
    (random : ℕ → ℕ) (can_bind : ℕ → Bool) (tries i : ℕ) {port : ℕ}
    → try_ports random can_bind tries i ≡ some port
    → (30100 ≤ port) × (port ≤ 30399) × (can_bind port ≡ true)
unfolding try_ports
try_ports-bounds random can_bind zero i e = absurd (ground (arith, e))
try_ports-bounds random can_bind (suc tries) i {port} e =
    elim (Bool-cases (can_bind (random_port (random i)))) [
      | inr taken ↦ try_ports-bounds random can_bind tries (suc i) (rw (taken, try_ports) at e)
      | inl free ↦
          let same_port : (random_port (random i) ≡ port) =
            some-injective _ _ (rw (free, try_ports) at e) in
          let (low, high) = random_port-bounds (random i) in
          (
            subst (λ p. 30100 ≤ p) same_port low,
            subst (λ p. p ≤ 30399) same_port high,
            subst (λ p. can_bind p ≡ true) same_port free,
          )
    ]

-- A service that is bound has a port from 30100 to 30399 that could be bound, and the URI that it
-- announces is parsed by a client to that port and to the IP address that it announces, or else is
-- bound to. The condition: the text of that address is one that the client's parser reads, and has no
-- colon, as that of an IPv6 address has, and no slash.
pub bind_pem-socket_addr :
    {Ip : Type 0} (parse_ip : Text → Option Ip) (random : ℕ → ℕ) (can_bind : ℕ → Bool) (tls : Bool)
    (bind_ip : Text) (key_pem cert_pem : Bytes) (svc : ScampService) (port : ℕ) (ip : Ip)
    → (bind_pem random can_bind tls bind_ip key_pem cert_pem svc).0 ≡ some port
    → parse_ip (unwrap_or svc.announce_ip bind_ip) ≡ some ip
    → Lacks 0x2F (unwrap_or svc.announce_ip bind_ip)
    → Lacks 0x3A (unwrap_or svc.announce_ip bind_ip)
    → (30100 ≤ port)
      × (port ≤ 30399)
      × (can_bind port ≡ true)
      × ((u : Text) × (uri (bind_pem random can_bind tls bind_ip key_pem cert_pem svc).1 ≡ some u)
          × ((info : ServiceInfo) → info.uri ≡ u → socket_addr parse_ip info ≡ some (ip, port)))
unfolding bind_pem uri uri_of
bind_pem-socket_addr parse_ip random can_bind false bind_ip key_pem cert_pem svc port ip e known
      slash colon =
    absurd (ground (arith, e))
bind_pem-socket_addr parse_ip random can_bind true bind_ip key_pem cert_pem svc port ip e known
      slash colon =
    elim (Option-cases (try_ports random can_bind 20 0)) [
      | inl exhausted ↦ absurd (ground (arith, (rw (exhausted, bind_pem) at e)))
      | inr (found, bound) ↦
          let same_port : (found ≡ port) = some-injective _ _ (rw (bound, bind_pem) at e) in
          let (low, high, free) =
            try_ports-bounds random can_bind 20 0 (bound ∙ ap some same_port) in
          (
            low,
            high,
            free,
            (
              codes "beepish+tls://"
                  ++ (unwrap_or svc.announce_ip bind_ip ++ 0x3A ∷ to_string port),
              rw (bound, bind_pem) (ap (λ p. some (uri_of svc.announce_ip (bind_ip, p))) same_port),
              λ info at_uri.
                  socket_addr-uri_of parse_ip (unwrap_or svc.announce_ip bind_ip) port ip info slash
                    colon (omega (arith, high)) known at_uri,
            ),
          )
    ]
