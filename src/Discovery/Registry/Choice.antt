-- ===== src/Discovery/Registry/Choice.antt =====
-- discovery/service_registry.rs: which entry a request gets.
use mathlib.Core.Option.{some-injective}
use scamp_rs.Common.{
  ℕ, zero, suc, ◌%◌, ◌<◌, ◌≡◌, ◌≢◌, refl, sym, ap, ◌∙◌, ◌⊎◌, inl, inr, Bool, true, false, not, some,
  List, [], ◌∷◌, Text, arith, length, is_empty, any, same, get_elem?, Bool-cases, Option-cases,
}
use scamp_rs.Common.Maps.{Map, get, text_key}
use scamp_rs.Common.{retain}
use scamp_rs.Discovery.Registry.{
  Outside, ServiceFailureState, ServiceRegistry, ActionEntry, pick_from, pick_healthy, is_failed,
  is_candidate, speaks, make_index_key, find_action_with_envelope,
}

-- `e` stands in the list.
abbrev pub IsIn {ℓ} : {A : Type ℓ} → A → List A → Type ℓ
IsIn e xs = (i : ℕ) × (get_elem? xs i ≡ some e)

kept_head :
    {A : Type 0} (p : A → Bool) (e x : A) (xs rest : List A) (i : ℕ)
    → p x ≡ true
    → get_elem? (x ∷ rest) i ≡ some e
    → ((j : ℕ) → get_elem? rest j ≡ some e → IsIn e xs × (p e ≡ true))
    → IsIn e (x ∷ xs) × (p e ≡ true)
kept_head p e x xs rest zero keep g later = ((0, g), ap p (sym (some-injective _ _ g)) ∙ keep)
kept_head p e x xs rest (suc i) keep g later =
    let ((j, there), good) = later i g in ((suc j, there), good)

retain-IsIn :
    {A : Type 0} (p : A → Bool) (e : A) (xs : List A) (i : ℕ)
    → get_elem? (retain p xs) i ≡ some e
    → IsIn e xs × (p e ≡ true)
unfolding retain
retain-IsIn p e [] i h = absurd (ground (arith, h))
retain-IsIn p e (x ∷ xs) i h = elim (Bool-cases (p x)) [
  | inr out ↦
      let ((j, there), good) = retain-IsIn p e xs i (sym (rw out refl) ∙ h) in
      ((suc j, there), good)
  | inl keep ↦
      kept_head p e x xs (retain p xs) i keep (sym (rw keep refl) ∙ h)
        (λ j g. retain-IsIn p e xs j g)
]

get_elem?-some :
    {A : Type 0} (xs : List A) (i : ℕ) → i < length xs → (e : A) × (get_elem? xs i ≡ some e)
get_elem?-some [] i h = absurd (omega arith)
get_elem?-some (x ∷ xs) zero h = (x, refl)
get_elem?-some (x ∷ xs) (suc i) h = get_elem?-some xs i (omega (arith, h))

retain-complement :
    {A : Type 0} (p : A → Bool) (xs : List A)
    → retain (λ x. not (p x)) xs ≡ []
    → retain p xs ≡ []
    → xs ≡ []
unfolding retain
retain-complement p [] h k = refl
retain-complement p (x ∷ xs) h k = elim (Bool-cases (p x)) [
  | inl yes_x ↦ absurd (ground (arith, k, yes_x))
  | inr no_x ↦ absurd (ground (arith, h, no_x))
]

is_empty-nil : {A : Type 0} (xs : List A) → is_empty xs ≡ true → xs ≡ []
is_empty-nil [] h = refl
is_empty-nil (x ∷ xs) h = absurd (ground (arith, h))

module _ {F : Type 0} (o : Outside F) where
  pick_from-IsIn :
      (random : ℕ) (xs : List (ActionEntry F)) (e : ActionEntry F)
      → pick_from o random xs ≡ some e
      → IsIn e xs
  unfolding pick_from
  pick_from-IsIn random [] e h = absurd (ground (arith, h))
  pick_from-IsIn random (x ∷ xs) e h = (random % suc (length xs), h)

  pick_from-some :
      (random : ℕ) (xs : List (ActionEntry F))
      → xs ≢ []
      → (e : ActionEntry F) × (pick_from o random xs ≡ some e)
  unfolding pick_from
  pick_from-some random [] h = absurd (h refl)
  pick_from-some random (x ∷ xs) h =
      get_elem?-some (x ∷ xs) (random % suc (length xs)) (omega arith)

  -- The entry is healthy, or none of the candidates is.
  abbrev pub IsBest :
      ℕ → Map Text ServiceFailureState → List (ActionEntry F) → ActionEntry F → Type 0
  IsBest now failures candidates e =
      (is_failed failures e.service_info.identity now ≡ false)
      ⊎ (retain (λ c. not (is_failed failures c.service_info.identity now)) candidates ≡ [])

  pick_healthy-IsBest :
      (now random : ℕ) (failures : Map Text ServiceFailureState) (candidates : List (ActionEntry F))
      (e : ActionEntry F)
      → pick_healthy o now random failures candidates ≡ some e
      → IsIn e candidates × IsBest now failures candidates e
  unfolding pick_healthy
  pick_healthy-IsBest now random failures candidates e h =
      let failed : ActionEntry F → Bool = λ c. is_failed failures c.service_info.identity now in
      elim (Bool-cases (is_empty (retain (λ c. not (failed c)) candidates))) [
        | inl none_healthy ↦
            let (i, there) =
              pick_from-IsIn random (retain failed candidates) e (sym (rw none_healthy refl) ∙ h) in
            ((retain-IsIn failed e candidates i there).0, inr (is_empty-nil _ none_healthy))
        | inr some_healthy ↦
            let (i, there) =
              pick_from-IsIn random (retain (λ c. not (failed c)) candidates) e
                (sym (rw some_healthy refl) ∙ h) in
            let (stands, good) = retain-IsIn (λ c. not (failed c)) e candidates i there in
            (stands, inl (ground (arith, good)))
      ]

  pick_healthy-some :
      (now random : ℕ) (failures : Map Text ServiceFailureState) (candidates : List (ActionEntry F))
      → candidates ≢ []
      → (e : ActionEntry F) × (pick_healthy o now random failures candidates ≡ some e)
  unfolding pick_healthy
  pick_healthy-some now random failures candidates h =
      let failed : ActionEntry F → Bool = λ c. is_failed failures c.service_info.identity now in
      elim (Bool-cases (is_empty (retain (λ c. not (failed c)) candidates))) [
        | inl none_healthy ↦ rw none_healthy (
            pick_from-some random (retain failed candidates)
              (λ e. h (retain-complement failed candidates (is_empty-nil _ none_healthy) e)))
        | inr some_healthy ↦ rw some_healthy (
            pick_from-some random (retain (λ c. not (failed c)) candidates)
              (λ e. absurd (ground (arith, some_healthy, e))))
      ]

  speaks_lem :
      (envelope : Text) (e : ActionEntry F)
      → speaks o envelope e ≡ true
      → (0 < e.announcement_params.weight)
        × (e.authorized ≡ true)
        × (any (λ env. same env envelope) e.action.envelopes ≡ true)
  unfolding speaks is_candidate
  speaks_lem envelope e h = (ground (arith, h), ground (arith, h), ground (arith, h))

  -- The entry that a request gets is one of those under its key; it has a weight, is authorized and
  -- speaks the envelope; and it is healthy, unless no such entry is.
  pub find_action_with_envelope-IsBest :
      (now random : ℕ) (sector action : Text) (version : ℕ) (envelope : Text)
      (r : ServiceRegistry F) (e : ActionEntry F)
      → find_action_with_envelope o now random sector action version envelope r ≡ some e
      → (entries : List (ActionEntry F)) × (get
            (o.to_lowercase (make_index_key o sector action version))
            r.actions_by_key
          ≡ some entries)
        × IsIn e entries
        × (0 < e.announcement_params.weight)
        × (e.authorized ≡ true)
        × (any (λ env. same env envelope) e.action.envelopes ≡ true)
        × IsBest now r.failures (retain (speaks o envelope) entries) e
  unfolding find_action_with_envelope
  find_action_with_envelope-IsBest now random sector action version envelope r e h =
      elim (Option-cases
        (get (o.to_lowercase (make_index_key o sector action version)) r.actions_by_key)) [
          | inl missing ↦ absurd (ground (arith, h, missing))
          | inr (entries, there) ↦
              let picked : pick_healthy o now random r.failures (retain (speaks o envelope) entries)
                  ≡ some e =
                ground (arith, h, there) in
              let ((i, stands), best) = pick_healthy-IsBest now random r.failures _ e picked in
              let (stands', good) = retain-IsIn (speaks o envelope) e entries i stands in
              let parts = speaks_lem envelope e good in
              (entries, there, stands', parts.0, parts.1, parts.2, best)
        ]

  -- A request gets an entry if the key has one that has a weight, is authorized and speaks the
  -- envelope, even when all of them have failed.
  pub find_action_with_envelope-some :
      (now random : ℕ) (sector action : Text) (version : ℕ) (envelope : Text)
      (r : ServiceRegistry F) (entries : List (ActionEntry F))
      → get (o.to_lowercase (make_index_key o sector action version)) r.actions_by_key
        ≡ some entries
      → retain (speaks o envelope) entries ≢ []
      → (e : ActionEntry F) × (find_action_with_envelope o now random sector action version envelope
            r
          ≡ some e)
  unfolding find_action_with_envelope
  find_action_with_envelope-some now random sector action version envelope r entries there h =
      rw there (pick_healthy-some now random r.failures (retain (speaks o envelope) entries) h)
