-- ===== src/Stream/Invariant.antt =====
-- The read loop keeps what `route` keeps.
use scamp_rs.Common.{
  ℕ, zero, suc, ◌≡◌, Bool, refl, inl, inr, [], ◌∷◌, ◌++◌, Bytes, length, Bool-cases, ltb,
}
use scamp_rs.Proto.Packet.{
  Packet, Codec, ParseResult, too_short, need_bytes, success, dropped, fatal,
}
use scamp_rs.Proto.Packet.Parse.{parse}
use scamp_rs.Stream.{Outcome, waiting, closed, failed, overflow, buffer_limit, packets, feed}

-- The state in which a round ends.
abbrev pub state_of {ℓ} : {S : Type ℓ} → Outcome S → S
state_of (waiting s buf) = s
state_of (closed s) = s
state_of (failed s e) = s
state_of (overflow s) = s

module _ {ℓ κ} {S : Type ℓ} (c : Codec) (route : Packet → S → S × Bool) (P : S → Type κ)
    (keep : (p : Packet) (s : S) → P s → P (route p s).0) where
  packets_case :
      (fuel x : ℕ) (b : Bytes) (s : S) (r : ParseResult)
      → parse c (x ∷ b) ≡ r
      → P s
      → ((b' : Bytes) (s' : S) → P s' → P (state_of (packets c route fuel b' s')))
      → P (state_of (packets c route (suc fuel) (x ∷ b) s))
  unfolding packets
  packets_case fuel x b s too_short e h later = rw (e, packets) h
  packets_case fuel x b s (need_bytes k) e h later = rw (e, packets) h
  packets_case fuel x b s (dropped n) e h later = rw (e, packets) (later _ s h)
  packets_case fuel x b s (success p n) e h later = elim (Bool-cases (route p s).1) [
    | inl on ↦ rw (e, packets) (rw on (later _ _ (keep p s h)))
    | inr off ↦ rw (e, packets) (rw off (keep p s h))
  ]
  packets_case fuel x b s (fatal t) e h later = rw (e, packets) h

  packets-state_of : (fuel : ℕ) (b : Bytes) (s : S) → P s → P (state_of (packets c route fuel b s))
  packets-state_of zero b s h = unfold packets in h
  packets-state_of (suc fuel) [] s h = unfold packets in h
  packets-state_of (suc fuel) (x ∷ b) s h =
      packets_case fuel x b s (parse c (x ∷ b)) refl h (packets-state_of fuel)

  -- What every packet keeps, a round of the loop keeps.
  pub feed-state_of : (buf chunk : Bytes) (s : S) → P s → P (state_of (feed c route buf s chunk))
  unfolding feed
  feed-state_of buf chunk s h = elim (Bool-cases (ltb buffer_limit (length (buf ++ chunk)))) [
    | inl over ↦ rw over h
    | inr fits ↦ rw fits (packets-state_of (length (buf ++ chunk)) (buf ++ chunk) s h)
  ]
