-- ===== src/Server/Announce/Read.antt =====
-- What discovery/service_info/parse.rs makes of the announcement of service/announce.rs.
use scamp_rs.Common.{
  ℕ, ◌*◌, ◌^◌, ◌<◌, ◌↔◌, ◌≡◌, ◌≢◌, refl, sym, subst, ◌∙◌, ◌%◌, true, Bool, none, some, List, [],
  ◌∷◌, ◌++◌, map, Text, codes, All, same, inl, inr, arith,
}
use scamp_rs.Common.Members.{In, All-In}
use scamp_rs.Discovery.Announcement.{Action, AnnouncementBody, Flag}
use scamp_rs.Discovery.Parse.{envelopes_and_v4, parse_root, parse_announcement_body, as_f64}
use scamp_rs.Discovery.Parse.Result.{ok, err, Reader, missing_field}
use scamp_rs.Discovery.Parse.Columns.{unrle, unrle_entries, repeat_n}
use scamp_rs.Discovery.Parse.Flags.{parse_each}
use scamp_rs.Discovery.Parse.V3.{parse_v3_actions}
use scamp_rs.Discovery.Parse.V4.{parse_v4_actions, v4_actions, zip}
use scamp_rs.Common.{retain}
use scamp_rs.Json.{Value, str, arr, of_list, to_list-of_list, as_str, as_u64, as_array, get_field}
use scamp_rs.Server.Announce.{v4_hash, v3_classes, null_if_empty, json_elements}
use scamp_rs.Server.Announce.Actions.{
  ActionInfo, announced_flags, class_map, action_array, is_announced, sort,
}
use scamp_rs.Server.Announce.Classes.{class_map_new, class_map-cases, Gives, InClass}
use scamp_rs.Server.Announce.FlagText.{parse_flags-announced_flags, announced_flags_total}
use scamp_rs.Server.Announce.Heard.{
  heard, Reads, v3_action-action_array, v3_namespaces-Reads, ok-injective,
}
use scamp_rs.Server.Announce.Rle.{rle_encode_strings, rle_encode_numbers, rle_encode}
use scamp_rs.Strings.Fields.{rsplit_once}

module _ {F : Type 0} (o : Reader F) where
  envelopes_and_v4-v4_hash :
      (envelopes : List Text)
      → envelopes_and_v4 o (map str envelopes ++ v4_hash ∷ []) ≡ ok (envelopes, [])
  unfolding envelopes_and_v4 v4_hash parse_v4_actions unrle unrle_entries get_field
      rle_encode_strings rle_encode_numbers rle_encode v4_actions zip repeat_n same
  envelopes_and_v4-v4_hash [] = refl
  envelopes_and_v4-v4_hash (e ∷ envelopes) = rw (envelopes_and_v4-v4_hash envelopes) refl

  -- `x` is what the action `a` is to a listener: its path, version and flags, under its sector.
  abbrev pub Announces : Text → List Text → ActionInfo → Action → Type 0
  Announces sector envelopes a x =
      (ns : Text) × (method : Text) × (flags : List Flag) × (rsplit_once 0x2E a.name
        ≡ some (ns, method))
      × (parse_each o (sort (retain is_announced a.flags)) ≡ ok flags)
      × (x ≡ heard o sector envelopes ns method a.version flags)

  -- What the action gives to a class is read as what it announces.
  action_array-Reads :
      (sector : Text) (envelopes : List Text) (a : ActionInfo) (ns method : Text) (gs : List Flag)
      → a.version < 2 ^ 31
      → parse_each o (sort (retain is_announced a.flags)) ≡ ok gs
      → Reads o sector envelopes ns
          (action_array method (announced_flags a.flags) a.version)
          (heard o sector envelopes ns method a.version gs)
  action_array-Reads sector envelopes a ns method gs small each =
      v3_action-action_array o sector envelopes ns method (announced_flags a.flags) a.version gs
        small (parse_flags-announced_flags o a.flags ∙ each)

  Gives-Reads :
      (sector : Text) (envelopes : List Text) (a : ActionInfo) (ns : Text) (v : Value)
      → a.version < 2 ^ 31
      → Gives a ns v
      → (x : Action) × Announces sector envelopes a x × Reads o sector envelopes ns v x
  Gives-Reads sector envelopes a ns v small (method, named, e) =
      let (gs, each) = announced_flags_total o a.flags in
      (
        heard o sector envelopes ns method a.version gs,
        (ns, method, gs, named, each, refl),
        subst (λ u. Reads o sector envelopes ns u (heard o sector envelopes ns method a.version gs))
            (sym e) (action_array-Reads sector envelopes a ns method gs small each),
      )

  given :
      (actions : List ActionInfo) (ns : Text) (v : Value)
      → InClass ns v (class_map actions [])
      → (a : ActionInfo) × In a actions × Gives a ns v
  given actions ns v h = elim (class_map-cases actions [] ns v h) [
    | inl g ↦ g
    | inr none_before ↦ absurd none_before
  ]

  given-Reads :
      (sector : Text) (envelopes : List Text) (actions : List ActionInfo)
      → All (λ a. a.version < 2 ^ 31) actions
      → (ns : Text) (v : Value) → InClass ns v (class_map actions [])
      → (x : Action) × ((a : ActionInfo) × In a actions × Announces sector envelopes a x)
        × Reads o sector envelopes ns v x
  given-Reads sector envelopes actions small ns v h =
      let (a, there, g) = given actions ns v h in
      let (x, ann, r) =
        Gives-Reads sector envelopes a ns v (All-In (λ b. b.version < 2 ^ 31) actions a small there)
          g in
      (x, (a, there, ann), r)

  -- The actions that a listener finds are those that the actions announce, and no other.
  parse_v3_actions-v3_classes :
      (sector : Text) (envelopes : List Text) (actions : List ActionInfo)
      → All (λ a. a.version < 2 ^ 31) actions
      → (xs : List Action) × (parse_v3_actions o (v3_classes actions true) sector envelopes ≡ ok xs)
        × ((x : Action)
            → In x xs ↔ ((a : ActionInfo) × In a actions × Announces sector envelopes a x))
  unfolding parse_v3_actions v3_classes
  parse_v3_actions-v3_classes sector envelopes actions small =
      let (xs, e, from, onto) =
        v3_namespaces-Reads o sector envelopes 0 (class_map actions []) (λ ns v h.
          let (x, ann, r) = given-Reads sector envelopes actions small ns v h in (x, r)) in
      (
        xs,
        e,
        λ x. (
          (λ h.
              let (ns, v, there, r) = from x h in
              let (y, ann, s) = given-Reads sector envelopes actions small ns v there in
              subst (λ z. (a : ActionInfo) × In a actions × Announces sector envelopes a z)
                (ok-injective (sym (s 0 0) ∙ r 0 0)) ann),
          (λ (a, there, (ns, method, gs, named, each, is_heard)).
              onto ns (action_array method (announced_flags a.flags) a.version) x
                (class_map_new actions [] a ns
                  (action_array method (announced_flags a.flags) a.version) there
                  (method, named, refl))
                (subst
                  (Reads o sector envelopes ns
                    (action_array method (announced_flags a.flags) a.version))
                  (sym is_heard)
                  (action_array-Reads sector envelopes a ns method gs
                    (All-In (λ b. b.version < 2 ^ 31) actions a small there) each))),
        ),
      )

  -- An announcement of a service that is not active, or of one without a named action, is refused: the
  -- parser wants an array where `build_announcement_packet` writes null.
  pub parse_announcement_body_inactive :
      (blob identity sector uri : Text) (envelopes : List Text) (actions : List ActionInfo)
      (weight interval_secs timestamp : ℕ) (active : Bool)
      → v3_classes actions active ≡ []
      → o.from_str blob
        ≡ some (
            arr (
              of_list (
                json_elements identity sector envelopes uri actions weight interval_secs active
                  timestamp)))
      → parse_announcement_body o blob ≡ err (missing_field (codes "v3_actions"))
  unfolding parse_announcement_body parse_root json_elements null_if_empty as_str as_u64 as_array
  parse_announcement_body_inactive blob identity sector uri envelopes actions weight interval_secs
        timestamp active empty e =
      rw e (rw empty refl)

  null_if_empty-cons : (vs : List Value) → vs ≢ [] → null_if_empty vs ≡ arr (of_list vs)
  unfolding null_if_empty
  null_if_empty-cons [] h = absurd (h refl)
  null_if_empty-cons (v ∷ vs) h = refl

  -- The announcement of an active service, with one named action or more, with versions that are not
  -- negative and with a weight and an interval in milliseconds that fit 32 bits, is parsed: to the
  -- identity, the address, the weight, the interval and the timestamp that were announced, and to the
  -- actions that the registered ones announce, and no other. The JSON text is assumed to be read back.
  pub parse_announcement_body-json_elements :
      (blob identity sector uri : Text) (envelopes : List Text) (actions : List ActionInfo)
      (weight interval_secs timestamp : ℕ)
      → All (λ a. a.version < 2 ^ 31) actions
      → v3_classes actions true ≢ []
      → weight < 2 ^ 32
      → interval_secs * 1000 < 2 ^ 32
      → o.from_str blob
        ≡ some (
            arr (
              of_list (
                json_elements identity sector envelopes uri actions weight interval_secs true
                  timestamp)))
      → (body : AnnouncementBody F) × (parse_announcement_body o blob ≡ ok body)
        × (body.info ≡ record { identity = identity; uri = uri; fingerprint = none })
        × (body.params.weight ≡ weight)
        × (body.params.interval ≡ interval_secs * 1000)
        × (body.params.timestamp ≡ o.f64_of_bits timestamp)
        × ((x : Action)
            → In x body.actions
              ↔ ((a : ActionInfo) × In a actions × Announces sector envelopes a x))
  unfolding parse_announcement_body parse_root json_elements as_str as_u64 as_array as_f64
  parse_announcement_body-json_elements blob identity sector uri envelopes actions weight
        interval_secs timestamp small named w32 i32 e =
      let (xs, parsed, found) = parse_v3_actions-v3_classes sector envelopes actions small in
      (
        record {
          info = record { identity = identity; uri = uri; fingerprint = none };
          params = record {
            weight = weight % 2 ^ 32;
            interval = (interval_secs * 1000) % 2 ^ 32;
            timestamp = o.f64_of_bits timestamp;
          };
          actions = xs;
        },
        rw e (
            rw
              (
                null_if_empty-cons (v3_classes actions true) named,
                to_list-of_list (v3_classes actions true),
                to_list-of_list (map str envelopes ++ v4_hash ∷ []),
                envelopes_and_v4-v4_hash envelopes,
                parsed,
              )
              refl),
        refl,
        omega (arith, w32),
        omega (arith, i32),
        refl,
        found,
      )
