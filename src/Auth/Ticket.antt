-- ===== src/Auth/Ticket.antt =====
-- auth/ticket.rs: `Ticket::parse`, `Ticket::verify` and the tests of privileges.
pub mod Sound
pub mod Issue
use scamp_rs.Common.{
  ℕ, ◌+◌, Bool, true, false, not, Option, none, some, List, [], ◌∷◌, ◌++◌, map, Text, Bytes, codes,
  length, is_empty, any, all, ltb, leb, ◌==◌, if◌then◌else◌, ◌>>=◌,
}
use scamp_rs.Common.Words.{add_u64}
use scamp_rs.Strings.Fields.{split, before_last}
use scamp_rs.Strings.Decimal.{parse_unsigned, parse_u64}
use scamp_rs.Strings.Utf8.{as_bytes}

pub record Ticket : Type 0 where
  pub version : ℕ
  pub user_id : ℕ
  pub client_id : ℕ
  pub validity_start : ℕ
  pub ttl : ℕ
  pub privileges : List ℕ

-- What the ticket takes from openssl and base64: the decoder of signatures, and the check of a
-- signature, which fails on a bad key. `accepts key data signature` is `none` for such an error.
pub record Crypto : Type 0 where
  pub base64url_decode : Text → Option Bytes
  pub accepts : Bytes → Bytes → Bytes → Option Bool

abbrev pub comma : ℕ
comma = 0x2C

abbrev pub plus : ℕ
plus = 0x2B

unfoldable pub parse_all : List Text → Option (List ℕ)
parse_all [] = some []
parse_all (s ∷ rest) = elim (parse_u64 s) [
  | none ↦ none
  | some n ↦ elim (parse_all rest) [ none ↦ none | some ns ↦ some (n ∷ ns) ]
]

unfoldable pub parse_privileges : Text → Option (List ℕ)
unfolding parse_all
parse_privileges [] = some []
parse_privileges (c ∷ s) = parse_all (split plus (c ∷ s))

abbrev pub parse_u32 : Text → Option ℕ
parse_u32 = parse_unsigned 0xFFFFFFFF

-- `parts[6]` if there is one.
abbrev pub signature_field : List Text → Text
signature_field [] = []
signature_field (s ∷ rest) = s

-- The fields from the third on, once the version is 1.
unfoldable pub parse_fields :
    Crypto → Text → Text → Text → Text → Text → Text → Option (Ticket × Bytes)
parse_fields c user client start ttl privs signature = do
  user_id ← parse_u64 user
  client_id ← parse_u64 client
  validity_start ← parse_u64 start
  seconds ← parse_u64 ttl
  privileges ← parse_privileges privs
  bytes ← c.base64url_decode signature
  some (
    record {
      version = 1;
      user_id = user_id;
      client_id = client_id;
      validity_start = validity_start;
      ttl = seconds;
      privileges = privileges;
    },
    bytes,
  )

unfoldable pub parse_parts : Crypto → List Text → Option (Ticket × Bytes)
unfolding parse_fields
parse_parts c (version ∷ user ∷ client ∷ start ∷ ttl ∷ privs ∷ rest) = do
  v ← parse_u32 version
  if v == 1 then parse_fields c user client start ttl privs (signature_field rest) else none
parse_parts c _ = none

-- `Ticket::parse`; `none` is any of its errors.
unfoldable pub parse : Crypto → Text → Option (Ticket × Bytes)
unfolding parse_parts
parse c ticket_str = parse_parts c (split comma ticket_str)

-- `now` is in the ticket's window. The end of the window is a sum in `u64`.
unfoldable pub in_window : ℕ → Ticket → Bool
in_window now t =
    if ltb now t.validity_start then false else not (leb (add_u64 t.validity_start t.ttl) now)

-- `Ticket::verify` at the time `now`, with the public key `key`.
unfoldable pub verify : Crypto → ℕ → Bytes → Text → Option Ticket
unfolding parse before_last in_window
verify c now key ticket_str = do
  (ticket, signature) ← parse c ticket_str
  signed_data ← before_last comma ticket_str
  good ← c.accepts key (as_bytes signed_data) signature
  if good then (if in_window now ticket then some ticket else none) else none

unfoldable pub has_privilege : ℕ → Ticket → Bool
has_privilege privilege t = any (λ p. p == privilege) t.privileges

unfoldable pub has_all_privileges : List ℕ → Ticket → Bool
has_all_privileges required t = all (λ p. any (λ q. q == p) t.privileges) required
