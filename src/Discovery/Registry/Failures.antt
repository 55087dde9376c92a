-- ===== src/Discovery/Registry/Failures.antt =====
-- discovery/service_registry.rs: how long a failed service is avoided.
use scamp_rs.Common.{
  ℕ, ◌+◌, ◌≤◌, ◌<◌, ◌≡◌, refl, ◌∙◌, true, false, Option, none, some, List, [], ◌∷◌, ◌++◌, Text,
  arith, length, length-append, leb, ltb, same, lt→ltb,
}
use scamp_rs.Common.Maps.{get, text_key, get-insert, get-insert_self}
use scamp_rs.Common.Words.{u64_mod, saturating_sub}
use scamp_rs.Common.{retain}
use scamp_rs.Discovery.Registry.{
  Outside, ServiceFailureState, ServiceRegistry, is_failed, fail_once, mark_failed,
}

-- A failure puts the service off for a minute at least and an hour at most.
fail_once-bounds :
    (now : ℕ) (old : Option ServiceFailureState)
    → now + 3600 < u64_mod
    → (now + 60 ≤ (fail_once now old).reactivate_at)
      × ((fail_once now old).reactivate_at ≤ now + 3600)
unfolding fail_once
fail_once-bounds now old fits =
    let times : List ℕ =
      retain (λ t. leb (saturating_sub now 86400) t)
        (elim old [ none ↦ [] | some state ↦ state.failure_times ]) in
    let len : length (times ++ now ∷ []) ≡ length times + 1 = length-append times (now ∷ []) in
    (ground (arith, fits, len), ground (arith, fits, len))

module _ {F : Type 0} (o : Outside F) (now : ℕ) (fits : now + 3600 < u64_mod) where
  is_failed_self :
      (identity : Text) (r : ServiceRegistry F) (at : ℕ)
      → is_failed (mark_failed o now identity r).failures identity at
        ≡ ltb at (fail_once now (get identity r.failures)).reactivate_at
  unfolding is_failed mark_failed
  is_failed_self identity r at =
      rw (get-insert_self identity (fail_once now (get identity r.failures)) r.failures, is_failed)
        refl

  -- A service that is marked failed is avoided for a minute from then on and is no longer avoided
  -- after an hour, and whether another service is avoided does not change. The clock is below 2^64
  -- - 3600.
  pub mark_failed-is_failed :
      (identity other : Text) (r : ServiceRegistry F) (at : ℕ)
      → (at < now + 60 → is_failed (mark_failed o now identity r).failures identity at ≡ true)
        × (now + 3600 ≤ at → is_failed (mark_failed o now identity r).failures identity at ≡ false)
        × (same identity other ≡ false
            → is_failed (mark_failed o now identity r).failures other at
              ≡ is_failed r.failures other at)
  unfolding mark_failed is_failed
  mark_failed-is_failed identity other r at =
      let bounds = fail_once-bounds now (get identity r.failures) fits in
      let e = is_failed_self identity r at in
      (
        λ soon. e ∙ lt→ltb at _ (omega (arith, bounds.0, soon)),
        λ late. e ∙ ground (arith, bounds.1, late),
        λ differs.
            rw
              (
                get-insert other identity (fail_once now (get identity r.failures)) r.failures,
                is_failed,
              )
              (rw differs refl),
      )
