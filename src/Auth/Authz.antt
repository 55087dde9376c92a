-- ===== src/Auth/Authz.antt =====
-- auth/authz.rs: `AuthzChecker` with its table, and `parse_authz_response`. What `to_lowercase`
-- and the JSON parser give are parameters, and so are the clock and the answer of the Auth service.
pub mod Access
use scamp_rs.Common.{
  ℕ, ◌+◌, Bool, true, false, Option, none, some, List, [], ◌∷◌, Text, Bytes, ltb, ◌==◌,
  if◌then◌else◌, ◌>>=◌,
}
use scamp_rs.Common.Maps.{Map, get, insert, text_key}
use scamp_rs.Common.Words.{add_u64}
use scamp_rs.Auth.Ticket.{Ticket, Crypto, verify, has_privilege}
use scamp_rs.Json.{Value, obj, Fields, end, field, as_u64, as_array}

abbrev pub authz_cache_ttl_secs : ℕ
authz_cache_ttl_secs = 300

-- Action name in lower case to the privileges it wants.
abbrev pub AuthzTable : Type 0
AuthzTable = Map Text (List ℕ)

pub record CachedAuthzTable : Type 0 where
  pub table : AuthzTable
  pub expires_at : ℕ

-- `remote` has the cell `cached`.
pub data AuthzSource : Type 0 where
  remote : Option CachedAuthzTable → AuthzSource
  static : AuthzTable → AuthzSource

pub record AuthzChecker : Type 0 where
  pub ticket_verify_key : Bytes
  pub source : AuthzSource

-- What stands outside: the crates, `to_lowercase` and the parser of JSON.
pub record Outside : Type 0 where
  pub crypto : Crypto
  pub to_lowercase : Text → Text
  pub from_slice : Bytes → Option Value

-- `filter_map(|v| v.as_u64())`.
unfoldable pub privilege_ids : List Value → List ℕ
privilege_ids [] = []
privilege_ids (v ∷ vs) = elim (as_u64 v) [ none ↦ privilege_ids vs | some n ↦ n ∷ privilege_ids vs ]

starts_with_underscore : Text → Bool
starts_with_underscore [] = false
starts_with_underscore (c ∷ s) = c == 0x5F

-- The loop over the members; `table` has what was entered.
unfoldable pub enter : (Text → Text) → Fields → AuthzTable → AuthzTable
unfolding starts_with_underscore
enter lower end table = table
enter lower (field key value rest) table =
    if starts_with_underscore key then enter lower rest table else elim (as_array value) [
      | none ↦ enter lower rest table
      | some xs ↦ enter lower rest (insert (lower key) (privilege_ids xs) table)
    ]

table_of : (Text → Text) → Value → Option AuthzTable
unfolding enter
table_of lower (obj fields) = some (enter lower fields [])
table_of lower v = none

unfoldable pub parse_authz_response : Outside → Bytes → Option AuthzTable
unfolding table_of
parse_authz_response o body = o.from_slice body >>= table_of o.to_lowercase

-- The fetched table, and the cell with it.
unfoldable pub fetch :
    Outside → ℕ → Option CachedAuthzTable → Option Bytes → Option AuthzTable × AuthzSource
fetch o later cached none = (none, remote cached)
fetch o later cached (some body) = elim (parse_authz_response o body) [
  | none ↦ (none, remote cached)
  | some table ↦ (
    some table,
    remote (some (record { table = table; expires_at = add_u64 later authz_cache_ttl_secs })),
  )
]

-- `get_table` at the time `now`. If the cell does not serve, the Auth service is asked: `answer` is
-- the body of its response, if one comes, and `later` the time then.
unfoldable pub get_table :
    Outside → ℕ → ℕ → Option Bytes → AuthzSource → Option AuthzTable × AuthzSource
unfolding fetch
get_table o now later answer (static table) = (some table, static table)
get_table o now later answer (remote none) = fetch o later none answer
get_table o now later answer (remote (some cached)) =
    if ltb now cached.expires_at
    then (some cached.table, remote (some cached))
    else fetch o later (some cached) answer

-- The loop over the privileges that the action wants.
unfoldable pub has_each : List ℕ → Ticket → Bool
unfolding has_privilege
has_each [] t = true
has_each (p ∷ ps) t = let rest = has_each ps t in if has_privilege p t then rest else false

-- The decision on an action with the ticket verified and the table at hand.
unfoldable pub decide : Outside → Text → Ticket → AuthzTable → Option Ticket
unfolding has_each
decide o action ticket table = elim (get (o.to_lowercase action) table) [
  | none ↦ none
  | some required ↦ if has_each required ticket then some ticket else none
]

-- `check_access`; `none` is any of its errors. The ticket is looked at first, so a bad one asks for
-- no table.
unfoldable pub check_access :
    Outside → ℕ → ℕ → Option Bytes → Text → Text → AuthzChecker → Option Ticket × AuthzChecker
unfolding get_table decide
check_access o now later answer action ticket_str k =
    elim (verify o.crypto now k.ticket_verify_key ticket_str) [
      | none ↦ (none, k)
      | some ticket ↦
          let (found, source) = get_table o now later answer k.source in
          (found >>= decide o action ticket, record k { source = source })
    ]
