-- ===== src/Common/Maps.antt =====
-- `HashMap` as an association list with one entry to a key; the order of entries is not observed.
use mathlib.Core.Bool.{Bool, true}
use mathlib.Core.List.{List, [], ◌∷◌}
use mathlib.Core.Logic.{◌↔◌, inl, inr}
use mathlib.Core.Option.{Option, none, some}
use mathlib.Core.Path.{◌≡◌, refl, ap, ◌∙◌, subst₂}
use native.Mathlib.Omega.{arith}
use Prim.Native.Nat.{ℕ}
use scamp_rs.Common.Tests.{
  if◌then◌else◌, ◌==◌ as nat_beq, ==→eq, ==_refl, same, same_iff, Bool-cases,
}
use scamp_rs.Common.Lists.{Text}

pub record Key {ℓ} (K : Type ℓ) : Type ℓ where
  pub beq : K → K → Bool
  pub beq_iff : (a b : K) → (beq a b ≡ true) ↔ (a ≡ b)

pub nat_beq_iff : (a b : ℕ) → (nat_beq a b ≡ true) ↔ (a ≡ b)
nat_beq_iff a b = (==→eq a b, λ e. rw e (==_refl b))

instance abbrev pub number_key : Key ℕ
number_key = record { beq = nat_beq; beq_iff = nat_beq_iff }

instance abbrev pub text_key : Key Text
text_key = record { beq = same; beq_iff = same_iff }

abbrev pub Map {ℓ κ} : Type ℓ → Type κ → Type (ℓ ⊔ κ)
Map K V = List (K × V)

pub beq_refl {ℓ} : {K : Type ℓ} ⦃e : Key K⦄ (k : K) → e.beq k k ≡ true
beq_refl ⦃e⦄ k = (e.beq_iff k k).1 refl

module _ {ℓ κ} {K : Type ℓ} {V : Type κ} ⦃e : Key K⦄ where
  unfoldable pub get : K → Map K V → Option V
  get k [] = none
  get k ((j, v) ∷ m) = if e.beq j k then some v else get k m

  unfoldable pub remove : K → Map K V → Map K V
  remove k [] = []
  remove k ((j, v) ∷ m) = let rest = remove k m in if e.beq j k then rest else (j, v) ∷ rest

  unfoldable pub insert : K → V → Map K V → Map K V
  insert k v m = (k, v) ∷ remove k m

  -- The laws have `if` form: they need no side condition.
  pub get-remove :
      (j k : K) (m : Map K V) → get j (remove k m) ≡ (if e.beq k j then none else get j m)
  unfolding get remove
  get-remove j k [] = ground arith
  get-remove j k ((i, v) ∷ m) =
      ground (arith, get-remove j k m, e.beq_iff i k, e.beq_iff i j, e.beq_iff k j)

  pub get-insert :
      (j k : K) (v : V) (m : Map K V)
      → get j (insert k v m) ≡ (if e.beq k j then some v else get j m)
  unfolding insert get
  get-insert j k v m = ground (arith, get-remove j k m)

  pub get-insert_self : (k : K) (v : V) (m : Map K V) → get k (insert k v m) ≡ some v
  get-insert_self k v m = rw (get-insert k k v m, beq_refl k)

  pub get-remove_self : (k : K) (m : Map K V) → get k (remove k m) ≡ none
  get-remove_self k m = rw (get-remove k k m, beq_refl k)

  -- Removing the entry that was just written, from a map that lacked the key, undoes the write.
  pub remove_absent : (k : K) (m : Map K V) → get k m ≡ none → remove k m ≡ m
  unfolding get remove
  remove_absent k [] h = refl
  remove_absent k ((j, v) ∷ m) h = ground (arith, remove_absent k m)

  pub remove-remove : (k : K) (m : Map K V) → remove k (remove k m) ≡ remove k m
  unfolding remove
  remove-remove k [] = refl
  remove-remove k ((j, v) ∷ m) = ground (arith, remove-remove k m)

  -- A write does not outlive the removal of its key.
  pub remove-insert : (k : K) (v : V) (m : Map K V) → remove k (insert k v m) ≡ remove k m
  unfolding insert remove
  remove-insert k v m = ground (arith, beq_refl k, remove-remove k m)

  pub remove-insert_absent :
      (k : K) (v : V) (m : Map K V) → get k m ≡ none → remove k (insert k v m) ≡ m
  remove-insert_absent k v m h = remove-insert k v m ∙ remove_absent k m h

  pub insert-insert : (k : K) (v w : V) (m : Map K V) → insert k w (insert k v m) ≡ insert k w m
  unfolding insert
  insert-insert k v w m = ap (λ t. (k, w) ∷ t) (remove-insert k v m)

  -- A predicate on every entry.
  abbrev pub Entries {ι} : (K → V → Type ι) → Map K V → Type ι
  Entries P [] = Unit
  Entries P ((j, v) ∷ m) = P j v × Entries P m

  pub Entries-get {ι} :
      (P : K → V → Type ι) (k : K) (v : V) (m : Map K V) → Entries P m → get k m ≡ some v → P k v
  unfolding get
  Entries-get P k v [] h g = absurd (ground arith)
  Entries-get P k v ((j, w) ∷ m) h g = elim (Bool-cases (e.beq j k)) [
    | inl hit ↦
        let same_key : j ≡ k = (e.beq_iff j k).0 hit in
        let same_value : w ≡ v = ground arith in subst₂ P same_key same_value h.0
    | inr miss ↦ Entries-get P k v m h.1 (ground arith)
  ]

  pub Entries-remove {ι} :
      (P : K → V → Type ι) (k : K) (m : Map K V) → Entries P m → Entries P (remove k m)
  unfolding remove
  Entries-remove P k [] h = tt
  Entries-remove P k ((j, w) ∷ m) h = elim (Bool-cases (e.beq j k)) [
    | inl hit ↦ rw hit (Entries-remove P k m h.1)
    | inr miss ↦ rw miss (h.0, Entries-remove P k m h.1)
  ]

  pub Entries-insert {ι} :
      (P : K → V → Type ι) (k : K) (v : V) (m : Map K V)
      → P k v
      → Entries P m
      → Entries P (insert k v m)
  unfolding insert
  Entries-insert P k v m p h = (p, Entries-remove P k m h)

  pub Entries-map {ι ν} :
      (P : K → V → Type ι) (Q : K → V → Type ν) (m : Map K V)
      → ((k : K) (v : V) → P k v → Q k v)
      → Entries P m
      → Entries Q m
  Entries-map P Q [] f h = tt
  Entries-map P Q ((j, w) ∷ m) f h = (f j w h.0, Entries-map P Q m f h.1)
