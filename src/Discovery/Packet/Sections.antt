-- ===== src/Discovery/Packet/Sections.antt =====
-- discovery/packet.rs, `AnnouncementPacket::parse`, on a text of three sections.
use scamp_rs.Common.{
  ℕ, suc, ◌%◌, ◌≡◌, refl, sym, ap, ◌∙◌, Bool, false, ◌&&◌, ◌||◌, [], ◌∷◌, ◌++◌, append_assoc,
  append-nil, Text, Bool-cases, codes, ltb, ◌==◌, inl, inr, arith,
}
use scamp_rs.Crypto.{Openssl}
use scamp_rs.Discovery.Packet.{
  split_blank_from, split_blank, parse, parse_parts, has_extra, packet_of,
}
use scamp_rs.Discovery.Parse.Result.{Reader}
use scamp_rs.Server.Announce.Wrap.{wrap_from}
use scamp_rs.Strings.Fields.Laws.{Lacks}

-- Two line feeds in a row.
unfoldable pub has_blank : Text → Bool
has_blank [] = false
has_blank (c ∷ []) = false
has_blank (c ∷ d ∷ s) = (c == 0x0A && d == 0x0A) || has_blank (d ∷ s)

-- No blank line within the text, nor at its end when a line feed follows.
abbrev pub IsBlock : Text → Type 0
IsBlock w = has_blank (w ++ 0x0A ∷ []) ≡ false

split_blank_from-block :
    (part w s : Text)
    → IsBlock w
    → split_blank_from part (w ++ 0x0A ∷ 0x0A ∷ s) ≡ (part ++ w) ∷ split_blank s
unfolding split_blank_from has_blank
split_blank_from-block part [] s h = ap (λ t. t ∷ split_blank s) (sym (append-nil part))
split_blank_from-block part (c ∷ []) s h = elim (Bool-cases (c == 0x0A)) [
  | inl lf ↦ absurd (ground (arith, (rw (lf, has_blank) at h)))
  | inr other ↦ rw (other, split_blank_from) refl
]
split_blank_from-block part (c ∷ d ∷ w) s h = elim (Bool-cases (c == 0x0A && d == 0x0A)) [
  | inl blank ↦ absurd (ground (arith, (rw (blank, has_blank) at h)))
  | inr fine ↦
      rw (fine, split_blank_from)
        (split_blank_from-block (part ++ c ∷ []) (d ∷ w) s (sym (rw (fine, has_blank) refl) ∙ h)
          ∙ ap (λ t. t ∷ split_blank s) (append_assoc part (c ∷ []) (d ∷ w)))
]

has_blank-cons : (c : ℕ) (s : Text) → (c == 0x0A) ≡ false → has_blank (c ∷ s) ≡ has_blank s
unfolding has_blank
has_blank-cons c [] h = refl
has_blank-cons c (d ∷ s) h = rw (h, has_blank) refl

pub wrap_from-IsBlock : (width i : ℕ) (s : Text) → Lacks 0x0A s → IsBlock (wrap_from width i s)
unfolding wrap_from has_blank
wrap_from-IsBlock width i [] h = refl
wrap_from-IsBlock width i (c ∷ s) h = elim (Bool-cases (ltb 0 i && (i % width == 0))) [
  | inl turn ↦
      rw (turn, wrap_from)
        (rw h.0 (
          has_blank-cons c (wrap_from width (suc i) s ++ 0x0A ∷ []) h.0
          ∙ wrap_from-IsBlock width (suc i) s h.1))
  | inr go_on ↦
      rw (go_on, wrap_from)
        (has_blank-cons c (wrap_from width (suc i) s ++ 0x0A ∷ []) h.0
          ∙ wrap_from-IsBlock width (suc i) s h.1)
]

-- The three sections of a packet, with the line feeds that stand behind them.
pub parse-sections :
    {F : Type 0} (o : Reader F) (c : Openssl) (json cert sig : Text)
    → IsBlock json
    → IsBlock cert
    → IsBlock sig
    → parse o c (json ++ 0x0A ∷ 0x0A ∷ (cert ++ 0x0A ∷ 0x0A ∷ (sig ++ 0x0A ∷ 0x0A ∷ [])))
      ≡ packet_of o c json cert sig
unfolding parse split_blank_from parse_parts has_extra
parse-sections o c json cert sig hj hc hs = ap (parse_parts o c) (
    split_blank_from-block [] json (cert ++ 0x0A ∷ 0x0A ∷ (sig ++ 0x0A ∷ 0x0A ∷ [])) hj
    ∙ ap (λ t. json ∷ t)
        (split_blank_from-block [] cert (sig ++ 0x0A ∷ 0x0A ∷ []) hc
          ∙ ap (λ t. cert ∷ t) (split_blank_from-block [] sig [] hs)))

pub sections_joined :
    (json cert sig : Text)
    → json ++ codes "\n\n" ++ (cert ++ 0x0A ∷ []) ++ codes "\n" ++ (sig ++ 0x0A ∷ []) ++ codes "\n"
      ≡ json ++ 0x0A ∷ 0x0A ∷ (cert ++ 0x0A ∷ 0x0A ∷ (sig ++ 0x0A ∷ 0x0A ∷ []))
sections_joined json cert sig = simp append_assoc
