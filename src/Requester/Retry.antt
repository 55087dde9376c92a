-- ===== src/Requester/Retry.antt =====
-- requester.rs: when a request is tried again.
use mathlib.Core.Option.{some-injective}
use scamp_rs.Client.{ScampResponse}
use scamp_rs.Common.{
  ℕ, ◌>>=◌, ◌+◌, ◌<◌, ◌≢◌, Bool, List, [], ◌∷◌, Text, same, same→eq, retain, not, ◌≡◌, refl, sym,
  ap, subst, ◌∙◌, inl, inr, true, false, some, arith, Bool-cases,
}
use scamp_rs.Common.Maps.{get, text_key}
use scamp_rs.Common.Members.{In}
use scamp_rs.Common.Words.{u64_mod}
use scamp_rs.Discovery.Registry.Choice.{
  find_action_with_envelope-some, find_action_with_envelope-IsBest,
}
use scamp_rs.Discovery.Registry.Failures.{mark_failed-is_failed}
use scamp_rs.Discovery.Registry.{
  Outside, ActionEntry, ServiceRegistry, make_index_key, mark_failed, is_failed, speaks,
}
use scamp_rs.Requester.{
  RequestOpts, envelope_str, Try, is_dispatch_failure, checked, time_allowed, find_entry,
  dispatch_once, mark_chosen, request_with_opts,
}

In-retain :
    {A : Type 0} (p : A → Bool) (d : A) (xs : List A) → In d xs → p d ≡ true → In d (retain p xs)
unfolding retain
In-retain p d [] h good = absurd h
In-retain p d (x ∷ xs) (inl e) good = let keeps : p x ≡ true = ap p e ∙ good in rw keeps (inl e)
In-retain p d (x ∷ xs) (inr h) good = elim (Bool-cases (p x)) [
  | inl keep ↦ rw keep (inr (In-retain p d xs h good))
  | inr out ↦ rw out (In-retain p d xs h good)
]

In-nonempty : {A : Type 0} (d : A) (xs : List A) → In d xs → xs ≢ []
In-nonempty d [] h e = absurd h
In-nonempty d (x ∷ xs) h e = ground (arith, e)

module _ {F : Type 0} (o : Outside F) where
  -- What `mark_chosen` leaves of the registry but for the failures.
  marked_actions :
      (now : ℕ) (identity : Text) (r : ServiceRegistry F)
      → (mark_failed o now identity r).actions_by_key ≡ r.actions_by_key
  unfolding mark_failed
  marked_actions now identity r = refl

  -- While a service that is not the marked one is healthy and suits the request, a lookup within a
  -- minute of the marking gives a service other than the marked one.
  find_elsewhere :
      (now at random : ℕ) (opts : RequestOpts) (r : ServiceRegistry F) (identity : Text)
      (entries : List (ActionEntry F)) (d : ActionEntry F)
      → now + 3600 < u64_mod
      → at < now + 60
      → get
          (o.to_lowercase (make_index_key o opts.sector opts.action opts.version))
          r.actions_by_key
        ≡ some entries
      → In d entries
      → speaks o (envelope_str opts.envelope) d ≡ true
      → is_failed r.failures d.service_info.identity at ≡ false
      → same identity d.service_info.identity ≡ false
      → (e : ActionEntry F) × (find_entry o at random opts (mark_failed o now identity r) ≡ some e)
        × (same identity e.service_info.identity ≡ false)
  unfolding find_entry
  find_elsewhere now at random opts r identity entries d fits soon stands there suits healthy
        differs =
      let marked = mark_failed o now identity r in
      let envelope = envelope_str opts.envelope in
      let key = o.to_lowercase (make_index_key o opts.sector opts.action opts.version) in
      let stands' : get key marked.actions_by_key ≡ some entries =
        ap (get key) (marked_actions now identity r) ∙ stands in
      let candidate = In-retain (speaks o envelope) d entries there suits in
      let (e, found) =
        find_action_with_envelope-some o at random opts.sector opts.action opts.version envelope
          marked entries stands' (In-nonempty d _ candidate) in
      let (entries', get', is_in, weight, authorized, envelopes, best) =
        find_action_with_envelope-IsBest o at random opts.sector opts.action opts.version envelope
          marked e found in
      let (marked_e, later_e, other_e) =
        mark_failed-is_failed o now fits identity e.service_info.identity r at in
      let (marked_d, later_d, other_d) =
        mark_failed-is_failed o now fits identity d.service_info.identity r at in
      (
        e,
        found,
        elim (Bool-cases (same identity e.service_info.identity)) [
          | inr other ↦ other
          | inl marked_one ↦ absurd (elim best [
            | inl well ↦
                let clash : true ≡ false =
                  sym (marked_e soon)
                  ∙ ap (λ i. is_failed marked.failures i at)
                      (same→eq identity e.service_info.identity marked_one)
                  ∙ well in
                ground (arith, clash)
            | inr none_well ↦
                In-nonempty d _
                  (In-retain (λ c. not (is_failed marked.failures c.service_info.identity at)) d _
                    candidate (ap not (other_d differs ∙ healthy)))
                  (subst
                    (λ es.
                      retain (λ c. not (is_failed marked.failures c.service_info.identity at))
                        (retain (speaks o envelope) es)
                      ≡ [])
                    (some-injective _ _ (sym get' ∙ stands')) none_well)
          ])
        ],
      )

  mark_chosen_found :
      (now random : ℕ) (opts : RequestOpts) (r : ServiceRegistry F) (m : ActionEntry F)
      → find_entry o now random opts r ≡ some m
      → mark_chosen o now random opts r ≡ mark_failed o now m.service_info.identity r
  unfolding mark_chosen
  mark_chosen_found now random opts r m chosen = rw (chosen, mark_chosen) refl

  dispatch_once_found :
      (t : Try F) (opts : RequestOpts) (r : ServiceRegistry F) (e : ActionEntry F)
      → find_entry o t.now t.random opts r ≡ some e
      → dispatch_once o t opts r ≡ (t.send e opts (time_allowed opts e) >>= checked)
  unfolding dispatch_once
  dispatch_once_found t opts r e found = rw found refl

  -- When the answer of the first try is a dispatch failure, the service `m` that the next lookup gives is
  -- marked failed, which need not be the one that failed; and if another service is healthy and suits
  -- the request, the retry, within a minute, goes to a service other than `m`, and its outcome is that of
  -- the request. The clock is below 2^64 - 3600.
  pub request_with_opts_elsewhere :
      (first : Try F) (now random : ℕ) (second : Try F) (opts : RequestOpts) (r : ServiceRegistry F)
      (resp : ScampResponse) (m d : ActionEntry F) (entries : List (ActionEntry F))
      → dispatch_once o first opts r ≡ some resp
      → is_dispatch_failure resp.header ≡ true
      → find_entry o now random opts r ≡ some m
      → now + 3600 < u64_mod
      → second.now < now + 60
      → get
          (o.to_lowercase (make_index_key o opts.sector opts.action opts.version))
          r.actions_by_key
        ≡ some entries
      → In d entries
      → speaks o (envelope_str opts.envelope) d ≡ true
      → is_failed r.failures d.service_info.identity second.now ≡ false
      → same m.service_info.identity d.service_info.identity ≡ false
      → (e : ActionEntry F) × (same m.service_info.identity e.service_info.identity ≡ false)
        × (request_with_opts o first now random second opts r ≡ (
          second.send e opts (time_allowed opts e) >>= checked,
          mark_failed o now m.service_info.identity r,
        ))
  unfolding request_with_opts
  request_with_opts_elsewhere first now random second opts r resp m d entries answered failed chosen
        fits soon stands there suits healthy differs =
      let (e, found, other) =
        find_elsewhere now second.now second.random opts r m.service_info.identity entries d fits
          soon stands there suits healthy differs in
      let marking = mark_chosen_found now random opts r m chosen in
      let marked = mark_failed o now m.service_info.identity r in
      (
        e,
        other,
        rw (answered, request_with_opts)
            (rw failed (
              ap (λ k. (dispatch_once o second opts k, k)) marking
              ∙ ap (λ x. (x, marked)) (dispatch_once_found second opts marked e found))),
      )
