-- ===== src/Discovery/Registry/Offered.antt =====
-- discovery/service_registry.rs: an announcement that is taken makes its actions found.
use scamp_rs.Auth.Services.{AuthorizedServices, is_authorized}
use scamp_rs.Common.{
  ℕ, ◌<◌, ◌≡◌, ◌≢◌, refl, sym, ap, subst, ◌∙◌, ◌⊎◌, inl, inr, Bool, true, false, none, some, List,
  [], ◌∷◌, ◌++◌, Text, any, same, same→eq, lt→ltb, retain, Bool-cases, unwrap_or, arith,
  if◌then◌else◌,
}
use scamp_rs.Common.Maps.{Map, get, text_key, get-insert, get-insert_self}
use scamp_rs.Common.Members.{In, In-append_left, In-append_right}
use scamp_rs.Discovery.Announcement.{
  Flag, no_auth, timeout, other, crud_op, Action, AnnouncementBody, AnnouncementPacket,
}
use scamp_rs.Discovery.Registry.{
  Outside, ServiceRegistry, ActionEntry, make_index_key, push_entry, add_aliases, add_actions,
  accept, inject_packet, dedup_key, fingerprint_of, speaks, is_candidate, find_action_with_envelope,
}
use scamp_rs.Discovery.Registry.Choice.{find_action_with_envelope-some}

module _ {F : Type 0} (o : Outside F) where
  -- The entry stands under the key.
  abbrev Stands : Text → ActionEntry F → Map Text (List (ActionEntry F)) → Type 0
  Stands key e m = (es : List (ActionEntry F)) × (get key m ≡ some es) × In e es

  push_entry_new :
      (key : Text) (e : ActionEntry F) (m : Map Text (List (ActionEntry F)))
      → Stands key e (push_entry o key e m)
  unfolding push_entry
  push_entry_new key e m = (
    unwrap_or (get key m) [] ++ e ∷ [],
    get-insert_self key (unwrap_or (get key m) [] ++ e ∷ []) m,
    In-append_right e (unwrap_or (get key m) []) (e ∷ []) (inl refl),
  )

  push_entry_old :
      (key : Text) (e : ActionEntry F) (k : Text) (d : ActionEntry F)
      (m : Map Text (List (ActionEntry F)))
      → Stands k d m
      → Stands k d (push_entry o key e m)
  unfolding push_entry
  push_entry_old key e k d m (es, there, inside) = elim (Bool-cases (same key k)) [
    | inl alike ↦
        let v = unwrap_or (get key m) [] ++ e ∷ [] in
        let kept : ((if same key k then some v else get k m) ≡ some v) = rw alike refl in
        (
          v,
          get-insert k key v m ∙ kept,
          In-append_left d (unwrap_or (get key m) []) (e ∷ []) (
              subst (λ x. In d (unwrap_or x []))
                (sym (ap (λ j. get j m) (same→eq key k alike) ∙ there)) inside),
        )
    | inr unlike ↦
        let v = unwrap_or (get key m) [] ++ e ∷ [] in
        let kept : ((if same key k then some v else get k m) ≡ some es) = rw unlike there in
        (es, get-insert k key v m ∙ kept, inside)
  ]

  add_aliases_old :
      (body : AnnouncementBody F) (action : Action) (flags : List Flag) (k : Text)
      (d : ActionEntry F) (m : Map Text (List (ActionEntry F)))
      → Stands k d m
      → Stands k d (add_aliases o body action flags m)
  unfolding add_aliases
  add_aliases_old body action [] k d m h = h
  add_aliases_old body action (no_auth ∷ flags) k d m h = add_aliases_old body action flags k d m h
  add_aliases_old body action (timeout n ∷ flags) k d m h =
      add_aliases_old body action flags k d m h
  add_aliases_old body action (other t ∷ flags) k d m h = add_aliases_old body action flags k d m h
  add_aliases_old body action (crud_op op ∷ flags) k d m h =
      add_aliases_old body action flags k d _ (push_entry_old _ _ k d m h)

  abbrev entry_of : AuthorizedServices → AnnouncementBody F → Action → ActionEntry F
  entry_of auth body x = record {
    service_info = body.info;
    announcement_params = body.params;
    action = x;
    authorized = is_authorized (fingerprint_of o body) x.sector x.path auth;
  }

  add_actions_old :
      (auth : AuthorizedServices) (body : AnnouncementBody F) (actions : List Action) (k : Text)
      (d : ActionEntry F) (m : Map Text (List (ActionEntry F)))
      → Stands k d m
      → Stands k d (add_actions o auth (fingerprint_of o body) body actions m)
  unfolding add_actions
  add_actions_old auth body [] k d m h = h
  add_actions_old auth body (x ∷ actions) k d m h =
      add_actions_old auth body actions k d _
        (add_aliases_old body x x.flags k d _ (push_entry_old _ _ k d m h))

  add_actions_new :
      (auth : AuthorizedServices) (body : AnnouncementBody F) (actions : List Action) (x : Action)
      (m : Map Text (List (ActionEntry F)))
      → In x actions
      → Stands
          (make_index_key o x.sector x.path x.version)
          (entry_of auth body x)
          (add_actions o auth (fingerprint_of o body) body actions m)
  unfolding add_actions
  add_actions_new auth body [] x m there = absurd there
  add_actions_new auth body (y ∷ actions) x m (inr there) =
      add_actions_new auth body actions x _ there
  add_actions_new auth body (y ∷ actions) x m (inl e) =
      subst
        (λ z.
          Stands (make_index_key o z.sector z.path z.version) (entry_of auth body z)
            (add_actions o auth (fingerprint_of o body) body (y ∷ actions) m))
        e
        (add_actions_old auth body actions (make_index_key o y.sector y.path y.version)
          (entry_of auth body y) _
          (add_aliases_old body y y.flags (make_index_key o y.sector y.path y.version)
            (entry_of auth body y) _
            (push_entry_new (make_index_key o y.sector y.path y.version) (entry_of auth body y) m)))

  -- The announcement is one to take: its signature is good, it has not outlived its interval, and it is
  -- newer than the last one taken of that service and certificate, if one was.
  abbrev pub IsTaken : ℕ → AnnouncementPacket F → ServiceRegistry F → Type 0
  IsTaken now packet r =
      (o.signature_is_valid packet ≡ true)
      × (o.outlived now packet.body.params.interval packet.body.params.timestamp ≡ false)
      × ((get (dedup_key o packet.body) r.seen_timestamps ≡ none)
          ⊎ ((prev : F) × (get (dedup_key o packet.body) r.seen_timestamps ≡ some prev)
              × (o.at_most packet.body.params.timestamp prev ≡ false)))

  accept-Stands :
      (auth : AuthorizedServices) (body : AnnouncementBody F) (m : Map Text (List (ActionEntry F)))
      (r : ServiceRegistry F) (x : Action)
      → In x body.actions
      → Stands
          (make_index_key o x.sector x.path x.version)
          (entry_of auth body x)
          (accept o auth body m r).actions_by_key
  unfolding accept
  accept-Stands auth body m r x there = add_actions_new auth body body.actions x m there

  inject_packet-Stands :
      (now : ℕ) (packet : AnnouncementPacket F) (auth : AuthorizedServices) (r : ServiceRegistry F)
      (x : Action)
      → IsTaken now packet r
      → In x packet.body.actions
      → Stands
          (make_index_key o x.sector x.path x.version)
          (entry_of auth packet.body x)
          (inject_packet o now packet auth r).actions_by_key
  unfolding inject_packet
  inject_packet-Stands now packet auth r x (good, fresh, inl unseen) there =
      rw good (rw fresh (rw (unseen, inject_packet) (accept-Stands auth packet.body _ r x there)))
  inject_packet-Stands now packet auth r x (good, fresh, inr (prev, seen, newer)) there =
      rw good (
        rw fresh (rw (seen, inject_packet) (rw newer (accept-Stands auth packet.body _ r x there))))

  retain-In :
      (p : ActionEntry F → Bool) (e : ActionEntry F) (es : List (ActionEntry F))
      → In e es
      → p e ≡ true
      → retain p es ≢ []
  unfolding retain
  retain-In p e [] h pe = absurd h
  retain-In p e (d ∷ es) (inl same_entry) pe =
      let passes : (p d ≡ true) = ap p same_entry ∙ pe in
      rw passes (λ nothing. ground (arith, nothing))
  retain-In p e (d ∷ es) (inr h) pe = elim (Bool-cases (p d)) [
    | inl passes ↦ rw passes (λ nothing. ground (arith, nothing))
    | inr fails ↦ rw fails (retain-In p e es h pe)
  ]

  make_index_key_lem :
      ((t : Text) → o.to_lowercase (o.to_lowercase t) ≡ o.to_lowercase t)
      → (sector path : Text) (version : ℕ)
      → o.to_lowercase (make_index_key o sector path version) ≡ make_index_key o sector path version
  unfolding make_index_key
  make_index_key_lem twice sector path version = twice _

  speaks-entry_of :
      (auth : AuthorizedServices) (body : AnnouncementBody F) (x : Action) (envelope : Text)
      → is_authorized (fingerprint_of o body) x.sector x.path auth ≡ true
      → 0 < body.params.weight
      → any (λ env. same env envelope) x.envelopes ≡ true
      → speaks o envelope (entry_of auth body x) ≡ true
  unfolding speaks is_candidate
  speaks-entry_of auth body x envelope allowed weighs spoken =
      rw (lt→ltb 0 body.params.weight weighs, allowed, spoken) refl

  -- Once an announcement is taken, a request for any of its actions gets an entry, at any time and
  -- whatever the random number: if the service is authorized for the action, has a weight, and the action
  -- is offered in the envelope. `to_lowercase` is assumed to change nothing the second time.
  pub inject_packet-find_action_with_envelope :
      (now later random : ℕ) (packet : AnnouncementPacket F) (auth : AuthorizedServices)
      (r : ServiceRegistry F) (x : Action) (envelope : Text)
      → ((t : Text) → o.to_lowercase (o.to_lowercase t) ≡ o.to_lowercase t)
      → IsTaken now packet r
      → In x packet.body.actions
      → is_authorized (fingerprint_of o packet.body) x.sector x.path auth ≡ true
      → 0 < packet.body.params.weight
      → any (λ env. same env envelope) x.envelopes ≡ true
      → (e : ActionEntry F) × (find_action_with_envelope o later random x.sector x.path x.version
            envelope
            (inject_packet o now packet auth r)
          ≡ some e)
  inject_packet-find_action_with_envelope now later random packet auth r x envelope twice taken
        there allowed weighs spoken =
      let (es, stands, inside) = inject_packet-Stands now packet auth r x taken there in
      find_action_with_envelope-some o later random x.sector x.path x.version envelope
        (inject_packet o now packet auth r) es
        (ap (λ k. get k (inject_packet o now packet auth r).actions_by_key)
            (make_index_key_lem twice x.sector x.path x.version)
          ∙ stands)
        (retain-In (speaks o envelope) (entry_of auth packet.body x) es inside
          (speaks-entry_of auth packet.body x envelope allowed weighs spoken))
