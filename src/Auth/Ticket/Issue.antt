-- ===== src/Auth/Ticket/Issue.antt =====
-- auth/ticket.rs: tickets of the format that its header documents,
-- `version,user_id,client_id,validity_start,ttl,privs,signature`.
use scamp_rs.Common.{
  ℕ, ◌≤◌, ◌<◌, ◌≡◌, ◌≢◌, refl, sym, ap, ◌∙◌, true, false, none, some, List, [], ◌∷◌, ◌++◌, map,
  Text, Bytes, arith, ◌==◌, if◌then◌else◌, All, All-append,
}
use scamp_rs.Common.Words.{u64_mod, add_u64}
use scamp_rs.Auth.Ticket.{
  Ticket, Crypto, comma, plus, parse_all, parse_privileges, parse_fields, parse_parts, parse,
  verify,
}
use scamp_rs.Auth.Ticket.Sound.{in_window_complete}
use scamp_rs.Strings.Decimal.{
  to_string, to_string-ne-nil, parse_unsigned-to_string, parse_u64-to_string,
}
use scamp_rs.Strings.Fields.{split, joined_by}
use scamp_rs.Strings.Fields.Laws.{Lacks, split-joined_by, before_last-joined_by, number-Lacks}
use scamp_rs.Strings.Utf8.{as_bytes}

abbrev pub privs_text : List ℕ → Text
privs_text ps = joined_by plus (map to_string ps)

-- The fields that are signed.
abbrev pub signed_fields : Ticket → List Text
signed_fields t =
    to_string t.user_id
    ∷ to_string t.client_id
    ∷ to_string t.validity_start
    ∷ to_string t.ttl
    ∷ privs_text t.privileges
    ∷ []

abbrev pub signed_text : Ticket → Text
signed_text t = joined_by comma (to_string t.version ∷ signed_fields t)

abbrev pub ticket_text : Ticket → Text → Text
ticket_text t signature =
    joined_by comma (to_string t.version ∷ (signed_fields t ++ signature ∷ []))

-- A ticket that fits its fields.
pub record IsIssued (t : Ticket) : Type 0 where
  pub version : t.version ≡ 1
  pub user_id : t.user_id < u64_mod
  pub client_id : t.client_id < u64_mod
  pub validity_start : t.validity_start < u64_mod
  pub ttl : t.ttl < u64_mod
  pub privileges : All (λ p. p < u64_mod) t.privileges

numbers-Lacks : (sep : ℕ) (ps : List ℕ) → sep < 48 → All (Lacks sep) (map to_string ps)
numbers-Lacks sep [] lt = tt
numbers-Lacks sep (p ∷ ps) lt = (number-Lacks sep p lt, numbers-Lacks sep ps lt)

privs_text-Lacks : (ps : List ℕ) → Lacks comma (privs_text ps)
privs_text-Lacks [] = tt
privs_text-Lacks (p ∷ []) = number-Lacks comma p (omega arith)
privs_text-Lacks (p ∷ q ∷ ps) =
    All-append (λ c. (c == comma) ≡ false) (to_string p) (plus ∷ privs_text (q ∷ ps))
      (number-Lacks comma p (omega arith)) (refl, privs_text-Lacks (q ∷ ps))

parse_all-numbers :
    (ps : List ℕ) → All (λ p. p < u64_mod) ps → parse_all (map to_string ps) ≡ some ps
unfolding parse_all
parse_all-numbers [] h = refl
parse_all-numbers (p ∷ ps) h =
    rw (parse_u64-to_string p h.0, parse_all) (rw (parse_all-numbers ps h.1, parse_all) refl)

parse_privileges-solid : (w : Text) → w ≢ [] → parse_privileges w ≡ parse_all (split plus w)
unfolding parse_privileges
parse_privileges-solid [] h = absurd (h refl)
parse_privileges-solid (c ∷ w) h = refl

joined_by-ne-nil : (p : ℕ) (ps : List ℕ) → privs_text (p ∷ ps) ≢ []
joined_by-ne-nil p [] e = to_string-ne-nil p e
joined_by-ne-nil p (q ∷ ps) e = append-ne-nil (to_string p) plus (privs_text (q ∷ ps)) e
  where
    append-ne-nil : (a : Text) (c : ℕ) (b : Text) → a ++ c ∷ b ≢ []
    append-ne-nil [] c b e = absurd (ground (arith, e))
    append-ne-nil (x ∷ a) c b e = absurd (ground (arith, e))

parse_privileges-text :
    (ps : List ℕ) → All (λ p. p < u64_mod) ps → parse_privileges (privs_text ps) ≡ some ps
unfolding parse_privileges
parse_privileges-text [] h = refl
parse_privileges-text (p ∷ ps) h =
    parse_privileges-solid (privs_text (p ∷ ps)) (joined_by-ne-nil p ps)
    ∙ ap parse_all (
        split-joined_by plus (to_string p) (map to_string ps)
          (numbers-Lacks plus (p ∷ ps) (omega arith)))
    ∙ parse_all-numbers (p ∷ ps) h

parse_fields-numbers :
    (c : Crypto) (t : Ticket) (signature : Text) (bytes : Bytes)
    → IsIssued t
    → c.base64url_decode signature ≡ some bytes
    → parse_fields c
        (to_string t.user_id)
        (to_string t.client_id)
        (to_string t.validity_start)
        (to_string t.ttl)
        (privs_text t.privileges)
        signature
      ≡ some (record t { version = 1 }, bytes)
unfolding parse_fields
parse_fields-numbers c t signature bytes ok good = rw (parse_u64-to_string t.user_id ok.user_id) (
    rw (parse_u64-to_string t.client_id ok.client_id) (
      rw (parse_u64-to_string t.validity_start ok.validity_start) (
        rw (parse_u64-to_string t.ttl ok.ttl)
          (rw (parse_privileges-text t.privileges ok.privileges) (rw good refl)))))

-- A ticket of the documented format reads back: its fields and the bytes of its signature. Its
-- numbers fit a `u64`, the version is 1, and the signature has no comma and decodes.
pub parse-ticket_text :
    (c : Crypto) (t : Ticket) (signature : Text) (bytes : Bytes)
    → IsIssued t
    → Lacks comma signature
    → c.base64url_decode signature ≡ some bytes
    → parse c (ticket_text t signature) ≡ some (t, bytes)
unfolding parse parse_parts
parse-ticket_text c t signature bytes ok clean good =
    let num : (n : ℕ) → Lacks comma (to_string n) = λ n. number-Lacks comma n (omega arith) in
    ap (parse_parts c) (
      split-joined_by comma (to_string t.version) (signed_fields t ++ signature ∷ []) (
        num t.version,
        (
          num t.user_id,
          (
            num t.client_id,
            (num t.validity_start, (num t.ttl, (privs_text-Lacks t.privileges, (clean, tt)))),
          ),
        ),
      ))
    ∙ rw (parse_unsigned-to_string 0xFFFFFFFF t.version (omega (arith, ok.version))) (
        ap
          (λ b.
            if b
            then parse_fields c (to_string t.user_id) (to_string t.client_id)
                (to_string t.validity_start) (to_string t.ttl) (privs_text t.privileges) signature
            else none)
          (ap (λ v. v == 1) ok.version)
        ∙ parse_fields-numbers c t signature bytes ok good
        ∙ λ i. some (record t { version = sym ok.version i }, bytes))

-- `verify` accepts a ticket of the documented format if its signature over the other fields, the
-- privileges included, is good and the time is in its window. Its numbers fit a `u64`, the version
-- is 1, and the signature has no comma and decodes.
pub verify-ticket_text :
    (c : Crypto) (now : ℕ) (key : Bytes) (t : Ticket) (signature : Text) (bytes : Bytes)
    → IsIssued t
    → Lacks comma signature
    → c.base64url_decode signature ≡ some bytes
    → c.accepts key (as_bytes (signed_text t)) bytes ≡ some true
    → t.validity_start ≤ now
    → now < add_u64 t.validity_start t.ttl
    → verify c now key (ticket_text t signature) ≡ some t
unfolding verify
verify-ticket_text c now key t signature bytes ok clean decodes good started unexpired =
    rw (parse-ticket_text c t signature bytes ok clean decodes) (
      rw (before_last-joined_by comma (to_string t.version) (signed_fields t) signature clean)
        (rw good (rw (in_window_complete now t started unexpired) refl)))
