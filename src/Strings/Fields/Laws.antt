-- ===== src/Strings/Fields/Laws.antt =====
-- Joining and splitting.
use scamp_rs.Common.{
  inl, inr, Bool-cases, ==→eq, ℕ, ◌<◌, ◌≡◌, ◌≢◌, refl, sym, ap, ◌∙◌, false, none, some, List, [],
  ◌∷◌, ◌++◌, append_assoc, append-nil, Text, arith, ◌==◌, ==_refl, All,
}
use scamp_rs.Strings.Decimal.{to_string, to_string-All, IsDigit}
use scamp_rs.Strings.Fields.{split_from, split, before_last, joined_by}

-- A text without the separator.
abbrev pub Lacks : ℕ → Text → Type 0
Lacks sep = All (λ c. (c == sep) ≡ false)

pub split_from-last :
    (sep : ℕ) (part w : Text) → Lacks sep w → split_from sep part w ≡ (part ++ w) ∷ []
unfolding split_from
split_from-last sep part [] h = ap (λ t. t ∷ []) (sym (append-nil part))
split_from-last sep part (c ∷ w) h =
    rw (h.0, split_from)
      (split_from-last sep (part ++ c ∷ []) w h.1 ∙ ap (λ t. t ∷ []) (append_assoc part (c ∷ []) w))

pub split_from-word :
    (sep : ℕ) (part w s : Text)
    → Lacks sep w
    → split_from sep part (w ++ sep ∷ s) ≡ (part ++ w) ∷ split sep s
unfolding split_from
split_from-word sep part [] s h =
    rw (==_refl sep) (ap (λ t. t ∷ split sep s) (sym (append-nil part)))
split_from-word sep part (c ∷ w) s h =
    rw (h.0, split_from)
      (split_from-word sep (part ++ c ∷ []) w s h.1
        ∙ ap (λ t. t ∷ split sep s) (append_assoc part (c ∷ []) w))

pub split-joined_by :
    (sep : ℕ) (w : Text) (ws : List Text)
    → All (Lacks sep) (w ∷ ws)
    → split sep (joined_by sep (w ∷ ws)) ≡ w ∷ ws
split-joined_by sep w [] h = split_from-last sep [] w h.0
split-joined_by sep w (v ∷ ws) h =
    split_from-word sep [] w (joined_by sep (v ∷ ws)) h.0
    ∙ ap (λ t. w ∷ t) (split-joined_by sep v ws h.1)

before_last-none : (sep : ℕ) (w : Text) → Lacks sep w → before_last sep w ≡ none
unfolding before_last
before_last-none sep [] h = refl
before_last-none sep (c ∷ w) h = rw (before_last-none sep w h.1, before_last) (rw h.0 refl)

before_last-word : (sep : ℕ) (w : Text) → Lacks sep w → before_last sep (sep ∷ w) ≡ some []
unfolding before_last
before_last-word sep w h = rw (before_last-none sep w h, before_last) (rw (==_refl sep) refl)

before_last-append :
    (sep : ℕ) (a s t : Text) → before_last sep s ≡ some t → before_last sep (a ++ s) ≡ some (a ++ t)
unfolding before_last
before_last-append sep [] s t h = h
before_last-append sep (c ∷ a) s t h = rw (before_last-append sep a s t h, before_last) refl

-- Everything before the last separator of joined texts are the texts but the last, joined.
pub before_last-joined_by :
    (sep : ℕ) (v : Text) (ws : List Text) (w : Text)
    → Lacks sep w
    → before_last sep (joined_by sep (v ∷ (ws ++ w ∷ []))) ≡ some (joined_by sep (v ∷ ws))
before_last-joined_by sep v [] w h =
    before_last-append sep v (sep ∷ w) [] (before_last-word sep w h) ∙ ap some (append-nil v)
before_last-joined_by sep v (u ∷ ws) w h =
    before_last-append sep v (sep ∷ joined_by sep (u ∷ (ws ++ w ∷ [])))
      (sep ∷ joined_by sep (u ∷ ws))
      (before_last-append sep (sep ∷ []) (joined_by sep (u ∷ (ws ++ w ∷ [])))
        (joined_by sep (u ∷ ws)) (before_last-joined_by sep u ws w h))

digits-Lacks : (sep : ℕ) (w : Text) → sep < 48 → All IsDigit w → Lacks sep w
digits-Lacks sep [] lt h = tt
digits-Lacks sep (c ∷ w) lt h = (ground (arith, h.0.0, lt), digits-Lacks sep w lt h.1)

pub number-Lacks : (sep n : ℕ) → sep < 48 → Lacks sep (to_string n)
number-Lacks sep n lt = digits-Lacks sep (to_string n) lt (to_string-All n)

split_from-ne-nil : (sep : ℕ) (part s : Text) → split_from sep part s ≢ []
unfolding split_from
split_from-ne-nil sep part [] = λ e. ground (arith, e)
split_from-ne-nil sep part (c ∷ s) = elim (Bool-cases (c == sep)) [
  | inl cut ↦ rw (cut, split_from) (λ e. ground (arith, e))
  | inr other ↦ rw (other, split_from) (split_from-ne-nil sep (part ++ c ∷ []) s)
]

joined_by-cons :
    (sep : ℕ) (w : Text) (ws : List Text)
    → ws ≢ []
    → joined_by sep (w ∷ ws) ≡ w ++ sep ∷ joined_by sep ws
joined_by-cons sep w [] h = absurd (h refl)
joined_by-cons sep w (v ∷ ws) h = refl

joined_by-split_from : (sep : ℕ) (part s : Text) → joined_by sep (split_from sep part s) ≡ part ++ s
unfolding split_from
joined_by-split_from sep part [] = sym (append-nil part)
joined_by-split_from sep part (c ∷ s) = elim (Bool-cases (c == sep)) [
  | inl cut ↦
      rw (cut, split_from)
        (joined_by-cons sep part (split_from sep [] s) (split_from-ne-nil sep [] s)
          ∙ ap (λ t. part ++ sep ∷ t) (joined_by-split_from sep [] s)
          ∙ ap (λ d. part ++ d ∷ s) (sym (==→eq c sep cut)))
  | inr other ↦
      rw (other, split_from)
        (joined_by-split_from sep (part ++ c ∷ []) s ∙ append_assoc part (c ∷ []) s)
]

-- Texts with the same parts are the same.
pub split-injective : (sep : ℕ) (s t : Text) → split sep s ≡ split sep t → s ≡ t
split-injective sep s t e =
    sym (joined_by-split_from sep [] s) ∙ ap (joined_by sep) e ∙ joined_by-split_from sep [] t
