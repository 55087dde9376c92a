-- ===== src/Tests/Access.antt =====
-- The theorems on tickets, access and the registry, applied.
use scamp_rs.Auth.Authz.{
  Outside, AuthzTable, AuthzChecker, remote, static, check_access, get_table, parse_authz_response,
}
use scamp_rs.Auth.Authz.Access.{
  IsGranted, HasAll, check_access-IsGranted, check_access_complete, get_table-cached,
}
use scamp_rs.Auth.Ticket.{Ticket, Crypto, parse, verify, has_privilege}
use scamp_rs.Auth.Ticket.Issue.{IsIssued, ticket_text, parse-ticket_text, verify-ticket_text}
use scamp_rs.Auth.Ticket.Sound.{IsVerified, verify-IsVerified}
use scamp_rs.Common.{◌≡◌, refl, true, none, some, [], ◌∷◌, codes, arith, same}
use scamp_rs.Common.Maps.{get, text_key}
use scamp_rs.Json.{obj, end}

-- Signatures are not decoded further, and every one is good.
abbrev pub crypto : Crypto
crypto = record { base64url_decode = λ s. some s; accepts = λ key covered signature. some true }

abbrev pub ticket : Ticket
ticket = record {
  version = 1;
  user_id = 42;
  client_id = 100;
  validity_start = 1000;
  ttl = 3600;
  privileges = 3 ∷ 5 ∷ [];
}

abbrev pub outside : Outside
outside = record { crypto = crypto; to_lowercase = λ t. t; from_slice = λ b. some (obj end) }

abbrev pub table : AuthzTable
table = (codes "product.fetch", 3 ∷ []) ∷ []

abbrev pub checker : AuthzChecker
checker = record { ticket_verify_key = []; source = static table }

ticket-IsIssued : IsIssued ticket
ticket-IsIssued = record {
  version = refl;
  user_id = omega arith;
  client_id = omega arith;
  validity_start = omega arith;
  ttl = omega arith;
  privileges = (omega arith, (omega arith, tt));
}

parse-ticket_text_example :
    parse crypto (ticket_text ticket (codes "sig")) ≡ some (ticket, codes "sig")
parse-ticket_text_example =
    parse-ticket_text crypto ticket (codes "sig") (codes "sig") ticket-IsIssued
      (refl, (refl, (refl, tt))) refl

verify-ticket_text_example : verify crypto 2000 [] (ticket_text ticket (codes "sig")) ≡ some ticket
verify-ticket_text_example =
    verify-ticket_text crypto 2000 [] ticket (codes "sig") (codes "sig") ticket-IsIssued
      (refl, (refl, (refl, tt))) refl refl (omega arith) (omega arith)

-- The same, for the witnesses that start from an accepted ticket.
accepted : verify crypto 2000 [] (ticket_text ticket (codes "sig")) ≡ some ticket
accepted =
    verify-ticket_text crypto 2000 [] ticket (codes "sig") (codes "sig") ticket-IsIssued
      (refl, (refl, (refl, tt))) refl refl (omega arith) (omega arith)

verify-IsVerified_example : IsVerified crypto 2000 [] (ticket_text ticket (codes "sig")) ticket
verify-IsVerified_example =
    verify-IsVerified crypto 2000 [] (ticket_text ticket (codes "sig")) ticket accepted

privileged : HasAll (3 ∷ []) ticket
unfolding has_privilege
privileged = (refl, tt)

table_found : (get_table outside 2000 2000 none checker.source).0 ≡ some table
unfolding get_table
table_found = refl

configured : get (codes "product.fetch") table ≡ some (3 ∷ [])
unfolding get same
configured = refl

let_in :
    (check_access outside 2000 2000 none
      (codes "product.fetch")
      (ticket_text ticket (codes "sig"))
      checker).0
    ≡ some ticket
let_in =
    check_access_complete outside 2000 2000 none (codes "product.fetch")
      (ticket_text ticket (codes "sig")) checker ticket table (3 ∷ []) accepted table_found
      configured privileged

check_access-IsGranted_example :
    IsGranted outside 2000 2000 none
      (codes "product.fetch")
      (ticket_text ticket (codes "sig"))
      checker
      ticket
check_access-IsGranted_example =
    check_access-IsGranted outside 2000 2000 none (codes "product.fetch")
      (ticket_text ticket (codes "sig")) checker ticket let_in

empty_table : parse_authz_response outside (codes "{}") ≡ some []
unfolding parse_authz_response
empty_table = refl

get_table-cached_example :
    get_table outside 1200 1200 none
      (get_table outside 1000 1001 (some (codes "{}")) (remote none)).1
    ≡ (some [], (get_table outside 1000 1001 (some (codes "{}")) (remote none)).1)
get_table-cached_example =
    get_table-cached outside 1000 1001 1200 1200 (codes "{}") none none [] (omega arith) empty_table
      tt (omega arith)
