-- ===== src/Discovery/Registry.antt =====
-- discovery/service_registry.rs: the actions that the announcements offer, the protection against
-- replays, the failures of services, and the choice of an entry for a request.
pub mod Choice
pub mod Replay
pub mod Failures
pub mod Offered
use scamp_rs.Auth.Services.{AuthorizedServices, is_authorized}
use scamp_rs.Common.{
  ℕ, suc, ◌+◌, ◌*◌, ◌%◌, Bool, true, false, ◌&&◌, not, Option, none, some, List, [], ◌∷◌, ◌++◌, map,
  Text, codes, length, any, same, ltb, leb, ◌==◌, if◌then◌else◌, unwrap_or, get_elem?, is_empty,
  ◌>>=◌, retain,
}
use scamp_rs.Common.Maps.{Map, get, insert, text_key}
use scamp_rs.Common.Words.{add_u64, saturating_sub}
use scamp_rs.Discovery.Announcement.{
  CrudOp, create, read, update, delete, Flag, no_auth, timeout, other, crud_op, PacketSection, v3,
  v4, ServiceInfo, Action, AnnouncementParams, AnnouncementBody, AnnouncementPacket,
}
use scamp_rs.Strings.Decimal.{to_string}

pub record ActionEntry (F : Type 0) : Type 0 where
  pub action : Action
  pub service_info : ServiceInfo
  pub announcement_params : AnnouncementParams F
  pub authorized : Bool

-- What the registry takes from outside: `at_most` is `<=` on `f64`, `outlived now interval timestamp`
-- the test `now > timestamp + interval / 1000.0 * 2.1`, and the signature check is that of openssl.
pub record Outside (F : Type 0) : Type 0 where
  pub at_most : F → F → Bool
  pub outlived : ℕ → ℕ → F → Bool
  pub to_lowercase : Text → Text
  pub signature_is_valid : AnnouncementPacket F → Bool

pub record ServiceFailureState : Type 0 where
  pub failure_times : List ℕ
  pub reactivate_at : ℕ

-- `actions_by_key` is a `BTreeMap`; its order shows in `actions_iter` (Discovery/Reload) alone, which
-- sorts the keys.
pub record ServiceRegistry (F : Type 0) : Type 0 where
  pub actions_by_key : Map Text (List (ActionEntry F))
  pub seen_timestamps : Map Text F
  pub failures : Map Text ServiceFailureState

-- `ServiceRegistry::empty`
abbrev pub empty_registry : {F : Type 0} → ServiceRegistry F
empty_registry = record { actions_by_key = []; seen_timestamps = []; failures = [] }

-- `find_map` for the first timeout.
first_timeout : List Flag → Option ℕ
first_timeout [] = none
first_timeout (timeout secs ∷ flags) = some (secs + 5)
first_timeout (f ∷ flags) = first_timeout flags

unfoldable pub timeout_secs : {F : Type 0} → ActionEntry F → Option ℕ
unfolding first_timeout
timeout_secs e = first_timeout e.action.flags

-- `rsplit_once('.')`, what stands before the last dot.
before_dot : Text → Option Text
before_dot [] = none
before_dot (c ∷ s) = elim (before_dot s) [
  | some t ↦ some (c ∷ t)
  | none ↦ if c == 0x2E then some [] else none
]

crud_tag : CrudOp → Text
crud_tag create = codes "create"
crud_tag read = codes "read"
crud_tag update = codes "update"
crud_tag delete = codes "destroy"

-- `a.as_deref() == Some(b)`.
is_some_of : Text → Option Text → Bool
is_some_of b none = false
is_some_of b (some a) = same a b

-- `failures.get(identity).is_some_and(|state| now < state.reactivate_at)`.
unfoldable pub is_failed : Map Text ServiceFailureState → Text → ℕ → Bool
is_failed failures identity now = elim (get identity failures) [
  | none ↦ false
  | some state ↦ ltb now state.reactivate_at
]

-- The failures of a service after one more at `now`.
unfoldable pub fail_once : ℕ → Option ServiceFailureState → ServiceFailureState
unfolding retain
fail_once now old =
    let before : List ℕ = elim old [ none ↦ [] | some state ↦ state.failure_times ] in
    let times : List ℕ = retain (λ t. leb (saturating_sub now 86400) t) before ++ now ∷ [] in
    let minutes : ℕ = if ltb (length times) 60 then length times else 60 in
    record { failure_times = times; reactivate_at = add_u64 now (minutes * 60) }

module _ {F : Type 0} (o : Outside F) where
  unfoldable pub make_index_key : Text → Text → ℕ → Text
  make_index_key sector action_path version =
      o.to_lowercase (sector ++ codes ":" ++ action_path ++ codes ".v" ++ to_string version)

  unfoldable pub make_crud_alias_key : Text → Text → Text → ℕ → Text
  make_crud_alias_key sector namespace tag version =
      o.to_lowercase
        (sector ++ codes ":" ++ namespace ++ codes "._" ++ tag ++ codes ".v" ++ to_string version)

  -- `entry(key).or_default().push(e)`.
  unfoldable pub push_entry :
      Text → ActionEntry F → Map Text (List (ActionEntry F)) → Map Text (List (ActionEntry F))
  push_entry key e m = insert key (unwrap_or (get key m) [] ++ e ∷ []) m

  -- The aliases of an action for its flags.
  add_aliases :
      AnnouncementBody F
      → Action
      → List Flag
      → Map Text (List (ActionEntry F))
      → Map Text (List (ActionEntry F))
  unfolding before_dot crud_tag push_entry make_crud_alias_key
  add_aliases body action [] m = m
  add_aliases body action (crud_op op ∷ flags) m =
      let namespace = unwrap_or (before_dot action.path) action.path in
      add_aliases body action flags (
        push_entry (make_crud_alias_key action.sector namespace (crud_tag op) action.version)
          (record {
            service_info = body.info;
            announcement_params = body.params;
            action = action;
            authorized = true;
          })
          m)
  add_aliases body action (f ∷ flags) m = add_aliases body action flags m

  add_actions :
      AuthorizedServices
      → Text
      → AnnouncementBody F
      → List Action
      → Map Text (List (ActionEntry F))
      → Map Text (List (ActionEntry F))
  unfolding add_aliases push_entry make_index_key
  add_actions auth fingerprint body [] m = m
  add_actions auth fingerprint body (action ∷ actions) m =
      add_actions auth fingerprint body actions (
        add_aliases body action action.flags (
          push_entry (make_index_key action.sector action.path action.version)
            (record {
              service_info = body.info;
              announcement_params = body.params;
              action = action;
              authorized = is_authorized fingerprint action.sector action.path auth;
            })
            m))

  -- The entries that an older announcement of the service left.
  unfoldable pub is_of : Text → Text → ActionEntry F → Bool
  unfolding is_some_of
  is_of identity fingerprint e =
      same e.service_info.identity identity && is_some_of fingerprint e.service_info.fingerprint

  unfoldable pub drop_entries :
      Text → Text → Map Text (List (ActionEntry F)) → Map Text (List (ActionEntry F))
  drop_entries identity fingerprint =
      map (λ (key, entries). (key, retain (λ e. not (is_of identity fingerprint e)) entries))

  abbrev pub fingerprint_of : AnnouncementBody F → Text
  fingerprint_of body = unwrap_or body.info.fingerprint []

  abbrev pub dedup_key : AnnouncementBody F → Text
  dedup_key body = fingerprint_of body ++ codes " " ++ body.info.identity

  -- The announcement is entered.
  accept :
      AuthorizedServices
      → AnnouncementBody F
      → Map Text (List (ActionEntry F))
      → ServiceRegistry F
      → ServiceRegistry F
  unfolding add_actions
  accept auth body actions r = record r {
    seen_timestamps = insert (dedup_key body) body.params.timestamp r.seen_timestamps;
    actions_by_key = add_actions auth (fingerprint_of body) body body.actions actions;
  }

  -- `inject_packet` at the time `now`.
  unfoldable pub inject_packet :
      ℕ → AnnouncementPacket F → AuthorizedServices → ServiceRegistry F → ServiceRegistry F
  unfolding accept drop_entries
  inject_packet now packet auth r =
      let body = packet.body in
      if not (o.signature_is_valid packet)
      then r
      else (if o.outlived now body.params.interval body.params.timestamp
          then r
          else elim (get (dedup_key body) r.seen_timestamps) [
            | none ↦ accept auth body r.actions_by_key r
            | some prev_ts ↦
                if o.at_most body.params.timestamp prev_ts
                then r
                else accept auth body
                    (drop_entries body.info.identity (fingerprint_of body) r.actions_by_key) r
          ])

  -- `pool[random % pool.len()]`, if the pool has an entry.
  unfoldable pub pick_from : ℕ → List (ActionEntry F) → Option (ActionEntry F)
  pick_from random [] = none
  pick_from random (e ∷ es) = get_elem? (e ∷ es) (random % suc (length es))

  -- The choice among the entries at hand, with the random number `random`.
  unfoldable pub pick_healthy :
      ℕ → ℕ → Map Text ServiceFailureState → List (ActionEntry F) → Option (ActionEntry F)
  unfolding retain pick_from
  pick_healthy now random failures candidates =
      let healthy = retain (λ e. not (is_failed failures e.service_info.identity now)) candidates in
      let failing = retain (λ e. is_failed failures e.service_info.identity now) candidates in
      pick_from random (if is_empty healthy then failing else healthy)

  unfoldable pub find_actions : Text → ServiceRegistry F → Option (List (ActionEntry F))
  find_actions key r = get (o.to_lowercase key) r.actions_by_key

  unfoldable pub is_candidate : ActionEntry F → Bool
  is_candidate e = ltb 0 e.announcement_params.weight && e.authorized

  unfoldable pub get_action : ℕ → ℕ → Text → ServiceRegistry F → Option (ActionEntry F)
  get_action now random key r = do
    entries ← get (o.to_lowercase key) r.actions_by_key
    pick_healthy now random r.failures (retain is_candidate entries)

  unfoldable pub speaks : Text → ActionEntry F → Bool
  unfolding is_candidate
  speaks envelope e = is_candidate e && any (λ env. same env envelope) e.action.envelopes

  unfoldable pub find_action_with_envelope :
      ℕ → ℕ → Text → Text → ℕ → Text → ServiceRegistry F → Option (ActionEntry F)
  unfolding make_index_key
  find_action_with_envelope now random sector action version envelope r = do
    entries ← get (o.to_lowercase (make_index_key sector action version)) r.actions_by_key
    pick_healthy now random r.failures (retain (speaks envelope) entries)

  unfoldable pub find_action : ℕ → ℕ → Text → Text → ℕ → ServiceRegistry F → Option (ActionEntry F)
  unfolding make_index_key get_action
  find_action now random sector action version =
      get_action now random (make_index_key sector action version)

  -- `mark_failed` at the time `now`.
  unfoldable pub mark_failed : ℕ → Text → ServiceRegistry F → ServiceRegistry F
  mark_failed now identity r = record r {
    failures = insert identity (fail_once now (get identity r.failures)) r.failures;
  }
