-- ===== src/Auth/Services.antt =====
-- auth/authorized_services.rs: which fingerprint may offer which action. A compiled pattern is the test
-- that the regex crate gives for it.
pub mod File
use scamp_rs.Common.{
  ℕ, Option, [], Bool, true, false, ◌||◌, none, some, List, ◌++◌, Text, codes, any, take, same,
  ◌==◌, if◌then◌else◌,
}
use scamp_rs.Common.Maps.{Map, get, text_key}

-- `last_mtime` is the time of the file that was read last.
pub record AuthorizedServices : Type 0 where
  pub entries : Map Text (List (Text → Bool))
  pub file_path : Text
  pub last_mtime : Option ℕ

-- `AuthorizedServices::empty`
abbrev pub empty_services : AuthorizedServices
empty_services = record { entries = []; file_path = []; last_mtime = none }

-- `starts_with("_meta.")`.
unfoldable pub is_meta : Text → Bool
is_meta action = same (take 6 action) (codes "_meta.")

unfoldable pub has_colon : Text → Bool
has_colon = any (λ c. c == 0x3A)

unfoldable pub is_authorized : Text → Text → Text → AuthorizedServices → Bool
unfolding is_meta has_colon
is_authorized fingerprint sector action auth =
    if is_meta action
    then true
    else (if has_colon sector || has_colon action
        then false
        else elim (get fingerprint auth.entries) [
          | none ↦ false
          | some patterns ↦ any (λ rx. rx (sector ++ codes ":" ++ action)) patterns
        ])
