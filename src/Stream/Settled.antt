-- ===== src/Stream/Settled.antt =====
-- The read loop ends a round for the reasons that the source has, and for no other.
use scamp_rs.Common.{
  ℕ, zero, suc, ◌≤◌, ◌<◌, ◌≡◌, refl, subst, ◌⊎◌, inl, inr, Bool, [], ◌∷◌, Bytes, arith, length,
  drop, length-drop, min, Bool-cases,
}
use scamp_rs.Proto.Packet.{
  Packet, Codec, ParseResult, too_short, need_bytes, success, dropped, fatal,
}
use scamp_rs.Proto.Packet.Kept.{IsKept, parse-IsKept}
use scamp_rs.Proto.Packet.Parse.{parse}
use scamp_rs.Proto.Packet.Stable.{parse-used_bounds}
use scamp_rs.Stream.{Outcome, waiting, packets}

parse-nil : (c : Codec) → parse c [] ≡ too_short
unfolding parse
parse-nil c = refl

module _ {ℓ} {S : Type ℓ} (c : Codec) (route : Packet → S → S × Bool) where
  -- A round that waits, waits for the rest of a packet.
  abbrev pub IsSettled : Outcome S → Type 0
  IsSettled (waiting s rest) =
      (parse c rest ≡ too_short) ⊎ ((k : ℕ) × (parse c rest ≡ need_bytes k))
  IsSettled _ = Unit {0}

  packets_round :
      (fuel more : ℕ) (b : Bytes) (s : S)
      → 0 < length b
      → ((p : Packet) (n : ℕ)
          → parse c b ≡ success p n
          → IsSettled (packets c route fuel (drop n b) (route p s).0)
            × (packets c route fuel (drop n b) (route p s).0
                ≡ packets c route more (drop n b) (route p s).0))
      → IsSettled (packets c route (suc fuel) b s)
        × (packets c route (suc fuel) b s ≡ packets c route (suc more) b s)
  unfolding packets
  packets_round fuel more [] s h again = absurd (omega arith)
  packets_round fuel more (x ∷ b) s h again = go (parse c (x ∷ b)) refl
    where
      go :
          (r : ParseResult)
          → parse c (x ∷ b) ≡ r
          → IsSettled (packets c route (suc fuel) (x ∷ b) s)
            × (packets c route (suc fuel) (x ∷ b) s ≡ packets c route (suc more) (x ∷ b) s)
      go too_short e = rw (e, packets, e) (inl refl, refl)
      go (need_bytes n) e = rw (e, packets, e) (inr (n, refl), refl)
      go (dropped n) e = absurd (subst IsKept e (parse-IsKept c (x ∷ b)))
      go (fatal er) e = rw (e, packets) (tt, refl)
      go (success p n) e = elim (Bool-cases (route p s).1) [
        | inl on ↦ rw (e, packets, on) (again p n e)
        | inr off ↦ rw (e, packets, off) (tt, refl)
      ]

  -- The loop over the packets of a buffer ends: with fuel for each of its bytes the outcome does not
  -- depend on the fuel, and if the loop then waits, `Packet::parse` finds no whole packet at the start
  -- of what is left, but asks for more bytes. `route` is any function.
  pub packets_total :
      (fuel more : ℕ) (b : Bytes) (s : S)
      → length b ≤ fuel
      → length b ≤ more
      → IsSettled (packets c route fuel b s) × (packets c route fuel b s ≡ packets c route more b s)
  unfolding packets
  packets_total zero zero [] s h k = (inl (parse-nil c), refl)
  packets_total zero zero (x ∷ b) s h k = absurd (omega arith)
  packets_total zero (suc more) [] s h k = (inl (parse-nil c), refl)
  packets_total zero (suc more) (x ∷ b) s h k = absurd (omega arith)
  packets_total (suc fuel) zero [] s h k = (inl (parse-nil c), refl)
  packets_total (suc fuel) zero (x ∷ b) s h k = absurd (omega arith)
  packets_total (suc fuel) (suc more) [] s h k = (inl (parse-nil c), refl)
  packets_total (suc fuel) (suc more) (x ∷ b) s h k =
      packets_round fuel more (x ∷ b) s (omega arith) (λ p n e.
        let len : length (drop n (x ∷ b)) ≤ min fuel more =
          omega (arith, length-drop n (x ∷ b), parse-used_bounds c (x ∷ b) e) in
        packets_total fuel more (drop n (x ∷ b)) (route p s).0 (omega arith) (omega arith))
