-- ===== src/Discovery/Reload.antt =====
-- discovery/service_registry.rs: the reload from the cache file, and the old form of a lookup.
use scamp_rs.Auth.Services.{AuthorizedServices, empty_services}
use scamp_rs.Auth.Services.File.{RegexCrate, load}
use scamp_rs.Common.{ℕ, suc, Option, none, some, List, [], ◌∷◌, Text, codes, joined, map, unwrap_or}
use scamp_rs.Server.Announce.Actions.{sort}
use scamp_rs.Common.Maps.{get, text_key}
use scamp_rs.Config.{ConfElement, get_value}
use scamp_rs.Crypto.{Openssl}
use scamp_rs.Discovery.Cache.{Reads, Item, announcement, not_utf8, io_error, items}
use scamp_rs.Discovery.Packet.{parsed, failed, panicked}
use scamp_rs.Discovery.Parse.Result.{Reader}
use scamp_rs.Discovery.Registry.{Outside, ServiceRegistry, ActionEntry, inject_packet, find_action}
use scamp_rs.Strings.Decimal.{parse_unsigned}
use scamp_rs.Strings.Fields.{rsplit_once}

-- The files: what reads of a path give, and a text file with its time.
pub record Files : Type 0 where
  pub open_file : Text → Option Reads
  pub read_to_string : Text → Option Text
  pub modified : Text → Option ℕ

-- `Result<()>` of the reload, the panic of a parser, or a loop over the cache file that does not end.
pub data Reloaded (F : Type 0) : Type 0 where
  reloaded : ServiceRegistry F → Reloaded F
  refused : ServiceRegistry F → Reloaded F
  task_panics : Reloaded F
  never_ends : Reloaded F

module _ {F : Type 0} (o : Reader F) (c : Openssl) (outside : Outside F) where
  -- The announcements that could be read are injected, the `i`-th item at the time `now i`.
  unfoldable pub inject_items :
      (ℕ → ℕ) → AuthorizedServices → ℕ → List (Item F) → ServiceRegistry F → Reloaded F
  unfolding inject_packet
  inject_items now auth i [] r = reloaded r
  inject_items now auth i (announcement (parsed packet) ∷ more) r =
      inject_items now auth (suc i) more (inject_packet outside (now i) packet auth r)
  inject_items now auth i (announcement (failed e) ∷ more) r = inject_items now auth (suc i) more r
  inject_items now auth i (announcement panicked ∷ more) r = task_panics
  inject_items now auth i (not_utf8 ∷ more) r = inject_items now auth (suc i) more r
  inject_items now auth i (io_error ∷ more) r = inject_items now auth (suc i) more r

  -- The services that the configuration names; none if the file cannot be read.
  unfoldable pub configured_services : RegexCrate → Files → ConfElement → AuthorizedServices
  unfolding load get_value
  configured_services regex files config =
      elim (get_value (codes "bus.authorized_services") config) [
        | none ↦ empty_services
        | some path ↦
            unwrap_or (load regex path (files.read_to_string path) (files.modified path))
              empty_services
      ]

  -- Of a file that does not end, no panic is told apart.
  unfoldable pub reload_from_cache :
      RegexCrate → Files → (ℕ → ℕ) → ConfElement → ServiceRegistry F → Reloaded F
  unfolding configured_services inject_items items
  reload_from_cache regex files now config r =
      elim (get_value (codes "discovery.cache_path") config) [
        | none ↦ refused r
        | some cache_path ↦ elim (files.open_file cache_path) [
          | none ↦ refused r
          | some reads ↦ elim (items o c (record { buffer = []; reads = reads })) [
            | none ↦ never_ends
            | some found ↦
                inject_items now (configured_services regex files config) 0 found
                  (record r { actions_by_key = []; seen_timestamps = [] })
          ]
        ]
      ]

module _ {F : Type 0} (outside : Outside F) where
  -- A `BTreeMap` gives its values in the order of their keys.
  unfoldable pub actions_iter : ServiceRegistry F → List (ActionEntry F)
  unfolding sort
  actions_iter r = joined (
      map (λ key. unwrap_or (get key r.actions_by_key) [])
        (sort (map (λ (key, entries). key) r.actions_by_key)))

  -- `get_action_by_pathver` at the time `now`, with the random number `random`.
  unfoldable pub get_action_by_pathver :
      ℕ → ℕ → Text → Text → ServiceRegistry F → Option (ActionEntry F)
  unfolding find_action rsplit_once
  get_action_by_pathver now random pathver sector r =
      let (action, version_str) = unwrap_or (rsplit_once 0x7E pathver) (pathver, codes "1") in
      find_action outside now random sector action
        (unwrap_or (parse_unsigned 0xFFFFFFFF version_str) 1) r
