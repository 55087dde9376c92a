-- ===== src/Auth/Authz/Access.antt =====
-- auth/authz.rs: who is let in, and how long a table serves.
use scamp_rs.Common.{
  ℕ, ◌+◌, ◌≤◌, ◌<◌, ◌≡◌, refl, subst, ap, ◌∙◌, inl, inr, true, false, Option, none, some, List, [],
  ◌∷◌, Text, Bytes, arith, ltb, lt→ltb, All, Bool-cases, Option-cases,
}
use scamp_rs.Common.Maps.{get, text_key}
use scamp_rs.Common.Words.{u64_mod, add_u64}
use scamp_rs.Auth.Authz.{
  Outside, AuthzTable, AuthzChecker, CachedAuthzTable, remote, authz_cache_ttl_secs, fetch,
  get_table, has_each, decide, check_access, parse_authz_response,
}
use scamp_rs.Auth.Ticket.{Ticket, verify, has_privilege}
use scamp_rs.Auth.Ticket.Sound.{IsVerified, verify-IsVerified}

abbrev pub HasAll : List ℕ → Ticket → Type 0
HasAll required t = All (λ p. has_privilege p t ≡ true) required

has_each-HasAll : (ps : List ℕ) (t : Ticket) → has_each ps t ≡ true → HasAll ps t
unfolding has_each
has_each-HasAll [] t h = tt
has_each-HasAll (p ∷ ps) t h = elim (Bool-cases (has_privilege p t)) [
  | inl has ↦ (has, has_each-HasAll ps t (ground (arith, h, has)))
  | inr lacks ↦ absurd (ground (arith, h, lacks))
]

HasAll-has_each : (ps : List ℕ) (t : Ticket) → HasAll ps t → has_each ps t ≡ true
unfolding has_each
HasAll-has_each [] t h = refl
HasAll-has_each (p ∷ ps) t h = rw (h.0) (HasAll-has_each ps t h.1)

-- Why an access was granted.
pub record IsGranted (o : Outside) (now later : ℕ) (answer : Option Bytes) (action text : Text)
    (k : AuthzChecker) (t : Ticket) : Type 0 where
  pub verified : IsVerified o.crypto now k.ticket_verify_key text t
  pub table : AuthzTable
  pub found : (get_table o now later answer k.source).0 ≡ some table
  pub required : List ℕ
  pub configured : get (o.to_lowercase action) table ≡ some required
  pub privileged : HasAll required t

decide-some :
    (o : Outside) (action : Text) (u t : Ticket) (table : AuthzTable)
    → decide o action u table ≡ some t
    → (u ≡ t)
      × (required : List ℕ) × (get (o.to_lowercase action) table ≡ some required)
      × HasAll required t
unfolding decide
decide-some o action u t table h = elim (Option-cases (get (o.to_lowercase action) table)) [
  | inl open_action ↦ absurd (ground (arith, h, open_action))
  | inr (required, configured) ↦ elim (Bool-cases (has_each required u)) [
    | inl has ↦
        let same : u ≡ t = ground (arith, h, configured, has) in
        (same, required, configured, subst (HasAll required) same (has_each-HasAll required u has))
    | inr lacks ↦ absurd (ground (arith, h, configured, lacks))
  ]
]

-- `check_access` lets a caller in only if the ticket is verified at that time, the table has the
-- action, and the ticket has every privilege that the table wants for it; an action that is not
-- configured is denied.
pub check_access-IsGranted :
    (o : Outside) (now later : ℕ) (answer : Option Bytes) (action text : Text) (k : AuthzChecker)
    (t : Ticket)
    → (check_access o now later answer action text k).0 ≡ some t
    → IsGranted o now later answer action text k t
unfolding check_access
check_access-IsGranted o now later answer action text k t h =
    elim (Option-cases (verify o.crypto now k.ticket_verify_key text)) [
      | inl bad ↦ absurd (ground (arith, h, bad))
      | inr (u, good) ↦ elim (Option-cases (get_table o now later answer k.source).0) [
        | inl missing ↦ absurd (ground (arith, h, good, missing))
        | inr (table, found) ↦
            let decided : decide o action u table ≡ some t = ground (arith, h, good, found) in
            let (same, required, configured, has) = decide-some o action u t table decided in
            record {
              verified =
                  verify-IsVerified o.crypto now k.ticket_verify_key text t (good ∙ ap some same);
              table = table;
              found = found;
              required = required;
              configured = configured;
              privileged = has;
            }
      ]
    ]

pub check_access_complete :
    (o : Outside) (now later : ℕ) (answer : Option Bytes) (action text : Text) (k : AuthzChecker)
    (t : Ticket) (table : AuthzTable) (required : List ℕ)
    → verify o.crypto now k.ticket_verify_key text ≡ some t
    → (get_table o now later answer k.source).0 ≡ some table
    → get (o.to_lowercase action) table ≡ some required
    → HasAll required t
    → (check_access o now later answer action text k).0 ≡ some t
unfolding check_access decide
check_access_complete o now later answer action text k t table required good found configured has =
    rw (good, check_access)
      (rw found (rw (configured, decide) (rw (HasAll-has_each required t has) refl)))

-- No table is cached, or it has expired.
abbrev pub IsStale : ℕ → Option CachedAuthzTable → Type 0
IsStale now none = Unit
IsStale now (some c) = c.expires_at ≤ now

fetch-cached :
    (o : Outside) (later then_now then_later : ℕ) (body : Bytes) (answer : Option Bytes)
    (cached : Option CachedAuthzTable) (table : AuthzTable)
    → later + authz_cache_ttl_secs < u64_mod
    → parse_authz_response o body ≡ some table
    → then_now < later + authz_cache_ttl_secs
    → get_table o then_now then_later answer (fetch o later cached (some body)).1
      ≡ (some table, (fetch o later cached (some body)).1)
unfolding fetch get_table
fetch-cached o later then_now then_later body answer cached table fits read fresh =
    rw (read, fetch)
      (rw (lt→ltb then_now (add_u64 later authz_cache_ttl_secs) (omega (arith, fits, fresh))) refl)

-- A table that was fetched, because none was cached or the cached one had expired, serves for 300
-- seconds: at any time before that, a call gives the same table and leaves the cell alone,
-- whatever the Auth service would answer. The response could be read, and the clock is below 2^64
-- - 300.
pub get_table-cached :
    (o : Outside) (now later then_now then_later : ℕ) (body : Bytes) (answer : Option Bytes)
    (cached : Option CachedAuthzTable) (table : AuthzTable)
    → later + authz_cache_ttl_secs < u64_mod
    → parse_authz_response o body ≡ some table
    → IsStale now cached
    → then_now < later + authz_cache_ttl_secs
    → get_table o then_now then_later answer (get_table o now later (some body) (remote cached)).1
      ≡ (some table, (get_table o now later (some body) (remote cached)).1)
unfolding get_table
get_table-cached o now later then_now then_later body answer none table fits read stale fresh =
    fetch-cached o later then_now then_later body answer none table fits read fresh
get_table-cached o now later then_now then_later body answer (some c) table fits read stale fresh =
    let late : ltb now c.expires_at ≡ false = ground (arith, stale) in
    rw (late, get_table)
      (fetch-cached o later then_now then_later body answer (some c) table fits read fresh)
