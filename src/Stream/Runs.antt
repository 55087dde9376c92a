-- ===== src/Stream/Runs.antt =====
-- What a list of packets does to the state, when none of them ends the loop.
use scamp_rs.Common.{◌≡◌, refl, sym, ap, subst, ◌∙◌, Bool, true, List, [], ◌∷◌, ◌++◌}
use scamp_rs.Proto.Packet.{Packet, Codec}
use scamp_rs.Stream.{route_all, Accepts}

module _ {ℓ} {S : Type ℓ} (c : Codec) (route : Packet → S → S × Bool) where
  -- The packets lead from `s` to `t`, and each of them lets the loop go on.
  abbrev pub Runs : List Packet → S → S → Type ℓ
  Runs ps s t = (route_all c route ps s ≡ t) × Accepts c route ps s

  pub Runs-nil : (s : S) → Runs [] s s
  unfolding route_all
  Runs-nil s = (refl, tt)

  pub Runs-cons :
      (p : Packet) (ps : List Packet) (s s' t : S)
      → route p s ≡ (s', true)
      → Runs ps s' t
      → Runs (p ∷ ps) s t
  unfolding route_all
  Runs-cons p ps s s' t e (run, accepts) =
      let same = ap (λ r. r.0) e in
      (
        ap (route_all c route ps) same ∙ run,
        (ap (λ r. r.1) e, subst (Accepts c route ps) (sym same) accepts),
      )

  pub Runs-append :
      (ps qs : List Packet) (s t u : S) → Runs ps s t → Runs qs t u → Runs (ps ++ qs) s u
  unfolding route_all
  Runs-append [] qs s t u (e, a) r =
      (ap (route_all c route qs) e ∙ r.0, subst (Accepts c route qs) (sym e) r.1)
  Runs-append (p ∷ ps) qs s t u (e, a) r =
      let rest = Runs-append ps qs (route p s).0 t u (e, a.1) r in (rest.0, (a.0, rest.1))
