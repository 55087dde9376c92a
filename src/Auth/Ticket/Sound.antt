-- ===== src/Auth/Ticket/Sound.antt =====
-- auth/ticket.rs: what a verified ticket is, and the tickets of the documented format.
use scamp_rs.Common.{
  ℕ, ◌≤◌, ◌<◌, ◌≡◌, refl, sym, ap, ◌∙◌, inl, inr, true, false, some, Text, Bytes, arith, Bool-cases,
  Option-cases,
}
use scamp_rs.Common.Words.{add_u64}
use scamp_rs.Auth.Ticket.{Ticket, Crypto, comma, before_last, parse, in_window, verify}
use scamp_rs.Strings.Utf8.{as_bytes}

-- What `verify` has checked of a ticket.
pub record IsVerified (c : Crypto) (now : ℕ) (key : Bytes) (text : Text) (t : Ticket) : Type 0 where
  pub signature : Bytes
  pub signed_data : Text
  pub reads : parse c text ≡ some (t, signature)
  pub cut : before_last comma text ≡ some signed_data
  pub signed : c.accepts key (as_bytes signed_data) signature ≡ some true
  pub started : t.validity_start ≤ now
  pub unexpired : now < add_u64 t.validity_start t.ttl

in_window_lem :
    (now : ℕ) (t : Ticket)
    → in_window now t ≡ true
    → (t.validity_start ≤ now) × (now < add_u64 t.validity_start t.ttl)
unfolding in_window
in_window_lem now t h = (ground (arith, h), ground (arith, h))

pub in_window_complete :
    (now : ℕ) (t : Ticket)
    → t.validity_start ≤ now
    → now < add_u64 t.validity_start t.ttl
    → in_window now t ≡ true
unfolding in_window
in_window_complete now t h k = ground (arith, h, k)

-- A ticket is accepted only if it can be read, its signature over everything before the last comma is
-- good under the key, and the time is in its window.
pub verify-IsVerified :
    (c : Crypto) (now : ℕ) (key : Bytes) (text : Text) (t : Ticket)
    → verify c now key text ≡ some t
    → IsVerified c now key text t
unfolding verify
verify-IsVerified c now key text t h = elim (Option-cases (parse c text)) [
  | inl bad ↦ absurd (ground (arith, h, bad))
  | inr ((u, signature), reads) ↦ elim (Option-cases (before_last comma text)) [
    | inl bad ↦ absurd (ground (arith, h, bad, reads))
    | inr (covered, cut) ↦ elim (Option-cases (c.accepts key (as_bytes covered) signature)) [
      | inl bad ↦ absurd (ground (arith, h, bad, reads, cut))
      | inr (false, signed) ↦ absurd (ground (arith, h, signed, reads, cut))
      | inr (true, signed) ↦ elim (Bool-cases (in_window now u)) [
        | inr outside ↦ absurd (ground (arith, h, signed, reads, cut, outside))
        | inl inside ↦
            let same : u ≡ t = ground (arith, h, signed, reads, cut, inside) in
            let window = in_window_lem now t (ap (in_window now) (sym same) ∙ inside) in
            record {
              signature = signature;
              signed_data = covered;
              reads = reads ∙ ap (λ v. some (v, signature)) same;
              cut = cut;
              signed = signed;
              started = window.0;
              unexpired = window.1;
            }
      ]
    ]
  ]
]

-- A ticket that has all this is accepted.
pub IsVerified-verify :
    (c : Crypto) (now : ℕ) (key : Bytes) (text : Text) (t : Ticket)
    → IsVerified c now key text t
    → verify c now key text ≡ some t
unfolding verify
IsVerified-verify c now key text t v =
    rw (v.reads, verify)
      (rw v.cut (rw v.signed (rw (in_window_complete now t v.started v.unexpired) refl)))
