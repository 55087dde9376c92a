-- ===== src/Config/Ordered.antt =====
-- config.rs: the children of an element, found after one of them is changed.
use scamp_rs.Common.{
  ◌≡◌, refl, sym, ap, subst, ◌∙◌, true, false, none, some, [], ◌∷◌, Text, unwrap_or, Bool-cases,
  inl, inr, same, same→eq, if◌then◌else◌, arith,
}
use scamp_rs.Config.{
  ConfElement, Children, no_child, child, default_element, text_ltb, update_child, find_child,
}

text_ltb_trans : (a b c : Text) → text_ltb a b ≡ true → text_ltb b c ≡ true → text_ltb a c ≡ true
unfolding text_ltb
text_ltb_trans a [] c h k = absurd (ground (arith, h))
text_ltb_trans a (y ∷ b) [] h k = absurd (ground (arith, k))
text_ltb_trans [] (y ∷ b) (z ∷ c) h k = refl
text_ltb_trans (x ∷ a) (y ∷ b) (z ∷ c) h k = ground (arith, h, k, text_ltb_trans a b c)

text_ltb_irrefl : (a : Text) → text_ltb a a ≡ false
unfolding text_ltb
text_ltb_irrefl [] = refl
text_ltb_irrefl (x ∷ a) = ground (arith, text_ltb_irrefl a)

text_ltb-same : (a b : Text) → text_ltb a b ≡ true → same b a ≡ false
text_ltb-same a b h = elim (Bool-cases (same b a)) [
  | inr differ ↦ differ
  | inl equal ↦
      absurd (ground (arith, sym h ∙ ap (text_ltb a) (same→eq b a equal) ∙ text_ltb_irrefl a))
]

pub same_refl : (a : Text) → same a a ≡ true
unfolding same
same_refl [] = refl
same_refl (x ∷ a) = ground (arith, same_refl a)

pub find_child-update_child :
    (key : Text) (f : ConfElement → ConfElement) (es : Children)
    → find_child key (update_child key f es)
      ≡ some (f (unwrap_or (find_child key es) default_element))
unfolding find_child update_child
find_child-update_child key f no_child = rw (same_refl key) refl
find_child-update_child key f (child k e es) = elim (Bool-cases (same k key)) [
  | inl known ↦ rw known (rw known refl)
  | inr other ↦ elim (Bool-cases (text_ltb key k)) [
    | inl before ↦ rw (other, before, same_refl key) refl
    | inr behind ↦ rw (other, behind) (rw (other, behind) (find_child-update_child key f es))
  ]
]

pub find_child-update_child_other :
    (key other : Text) (f : ConfElement → ConfElement) (es : Children)
    → same key other ≡ false
    → find_child other (update_child key f es) ≡ find_child other es
unfolding find_child update_child
find_child-update_child_other key other f no_child h = elim (Bool-cases (text_ltb other key)) [
  | inl less ↦ rw (h, less) refl
  | inr more ↦ rw (h, more) refl
]
find_child-update_child_other key other f (child k e es) h = elim (Bool-cases (same k key)) [
  | inl known ↦
      let unlike : (same k other ≡ false) =
        subst (λ n. same n other ≡ false) (sym (same→eq k key known)) h in
      rw known (rw unlike refl)
  | inr unknown ↦ elim (Bool-cases (text_ltb key k)) [
    | inl before ↦ elim (Bool-cases (text_ltb other key)) [
      | inl less ↦
          let beyond : (text_ltb other k ≡ true) = text_ltb_trans other key k less before in
          rw (unknown, before, h, less) (rw (text_ltb-same other k beyond, beyond) refl)
      | inr more ↦ rw (unknown, before, h, more) refl
    ]
    | inr behind ↦
        rw (unknown, behind)
          (ap (λ r. if same k other then some e else if text_ltb other k then none else r)
            (find_child-update_child_other key other f es h))
  ]
]
