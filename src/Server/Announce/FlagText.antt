-- ===== src/Server/Announce/FlagText.antt =====
-- service/announce.rs: the flags of an announced action, as discovery/service_info/parse.rs reads them.
use scamp_rs.Common.{
  ℕ, ◌+◌, ◌-◌, ◌*◌, ◌≡◌, refl, sym, ap, subst, ◌∙◌, Bool, true, false, not, ◌&&◌, some, List, [],
  ◌∷◌, Text, inl, inr, Bool-cases, Option-cases, codes, is_empty, all, All, same, same→eq, ◌==◌,
  ==→eq, arith,
}
use scamp_rs.Discovery.Announcement.{
  Flag, crud_op, create, no_auth, timeout, other, delete, read, update,
}
use scamp_rs.Discovery.Parse.Result.{ok, Reader}
use scamp_rs.Discovery.Parse.Flags.{
  parse_flag, parse_each, parse_flags, timeout_digits, parse_crud_op, nonempty_parts,
}
use scamp_rs.Common.{retain}
use scamp_rs.Server.Announce.Actions.{
  announceable, contains, is_timeout_flag, is_announced, insert_sorted, sort, announced_flags,
  text_leb,
}
use scamp_rs.Strings.Decimal.{digits, parse_unsigned}
use scamp_rs.Strings.Fields.{joined_by, split_from}
use scamp_rs.Strings.Fields.Laws.{Lacks, split-joined_by}

contains-All :
    (P : Text → Type 0) (f : Text) (ws : List Text) → All P ws → contains f ws ≡ true → P f
unfolding contains
contains-All P f [] h e = absurd (ground (arith, e))
contains-All P f (w ∷ ws) (hw, h) e = elim (Bool-cases (same w f)) [
  | inl yes_same ↦ subst P (same→eq w f yes_same) hw
  | inr no_same ↦ contains-All P f ws h (sym (rw no_same refl) ∙ e)
]

is_timeout_flag-cases :
    (P : Text → Type 0)
    → ((s : Text) (n : ℕ) → parse_unsigned 0xFFFFFFFF s ≡ some n → P (0x74 ∷ s))
    → (f : Text) → is_timeout_flag f ≡ true
    → P f
unfolding is_timeout_flag
is_timeout_flag-cases P timed [] e = absurd (ground (arith, e))
is_timeout_flag-cases P timed (c ∷ s) e = elim (Bool-cases (c == 0x74)) [
  | inr no_t ↦ absurd (ground (arith, (rw (no_t, is_timeout_flag) at e)))
  | inl is_t ↦ elim (Option-cases (parse_unsigned 0xFFFFFFFF s)) [
    | inl unparsed ↦ absurd (ground (arith, (rw (is_t, unparsed, is_timeout_flag) at e)))
    | inr (n, parsed) ↦ subst (λ d. P (d ∷ s)) (sym (==→eq c 0x74 is_t)) (timed s n parsed)
  ]
]

-- What `is_announced` passes: one of the six words, or `t` and a number.
is_announced-cases :
    (P : Text → Type 0)
    → All P announceable
    → ((s : Text) (n : ℕ) → parse_unsigned 0xFFFFFFFF s ≡ some n → P (0x74 ∷ s))
    → (f : Text) → is_announced f ≡ true
    → P f
unfolding is_announced is_timeout_flag
is_announced-cases P words timed f e = elim (Bool-cases (contains f announceable)) [
  | inl among ↦ contains-All P f announceable words among
  | inr not_among ↦ is_timeout_flag-cases P timed f (sym (rw not_among refl) ∙ e)
]

digits-Lacks : (limit acc : ℕ) (s : Text) {r : ℕ} → digits limit acc s ≡ some r → Lacks 0x2C s
unfolding digits
digits-Lacks limit acc [] e = tt
digits-Lacks limit acc (c ∷ s) {r} e =
    ground (arith, e, digits-Lacks limit (acc * 10 + (c - b'0')) s {r = r})

parse_unsigned-Lacks :
    (limit : ℕ) (s : Text) {r : ℕ} → parse_unsigned limit s ≡ some r → Lacks 0x2C s
unfolding parse_unsigned
parse_unsigned-Lacks limit [] e = tt
parse_unsigned-Lacks limit (c ∷ []) {r} e = digits-Lacks limit 0 (c ∷ []) e
parse_unsigned-Lacks limit (c ∷ d ∷ s) {r} e =
    ground
      (arith, e, digits-Lacks limit 0 (d ∷ s) {r = r}, digits-Lacks limit 0 (c ∷ d ∷ s) {r = r})

all-Lacks : (sep : ℕ) (w : Text) → all (λ c. not (c == sep)) w ≡ true → Lacks sep w
all-Lacks sep [] e = tt
all-Lacks sep (c ∷ w) e = ground (arith, e, all-Lacks sep w)

map-All {κ μ} :
    {P : Text → Type κ} {Q : Text → Type μ} (ws : List Text)
    → ((w : Text) → P w → Q w)
    → All P ws
    → All Q ws
map-All [] f h = tt
map-All (w ∷ ws) f h = (f w h.0, map-All ws f h.1)

abbrev IsWord : Text → Type 0
IsWord f = Lacks 0x2C f × (is_empty f ≡ false)

is_announced-IsWord : (f : Text) → is_announced f ≡ true → IsWord f
is_announced-IsWord =
    is_announced-cases IsWord
      (
        (all-Lacks 0x2C (codes "create") refl, refl),
        (
          (all-Lacks 0x2C (codes "destroy") refl, refl),
          (
            (all-Lacks 0x2C (codes "noauth") refl, refl),
            (
              (all-Lacks 0x2C (codes "read") refl, refl),
              (
                (all-Lacks 0x2C (codes "secret") refl, refl),
                ((all-Lacks 0x2C (codes "update") refl, refl), tt),
              ),
            ),
          ),
        ),
      )
      (λ s n e. ((refl, parse_unsigned-Lacks 0xFFFFFFFF s e), refl))

-- A sort keeps what holds of every element, and so does `filter`, which adds its test.
insert_sorted-All :
    (P : Text → Type 0) (v : Text) (ws : List Text) → P v → All P ws → All P (insert_sorted v ws)
unfolding insert_sorted
insert_sorted-All P v [] pv h = (pv, tt)
insert_sorted-All P v (w ∷ ws) pv h = elim (Bool-cases (text_leb v w)) [
  | inl before ↦ rw before (pv, h)
  | inr behind ↦ rw behind (h.0, insert_sorted-All P v ws pv h.1)
]

sort-All : (P : Text → Type 0) (vs : List Text) → All P vs → All P (sort vs)
unfolding sort
sort-All P [] h = tt
sort-All P (v ∷ vs) h = insert_sorted-All P v (sort vs) h.0 (sort-All P vs h.1)

retain-All :
    (P : Text → Type 0) (p : Text → Bool)
    → ((v : Text) → p v ≡ true → P v)
    → (vs : List Text) → All P (retain p vs)
unfolding retain
retain-All P p f [] = tt
retain-All P p f (v ∷ vs) = elim (Bool-cases (p v)) [
  | inl kept ↦ rw kept (f v kept, retain-All P p f vs)
  | inr left ↦ rw left (retain-All P p f vs)
]

retain_kept : (p : Text → Bool) (vs : List Text) → All (λ v. p v ≡ true) vs → retain p vs ≡ vs
unfolding retain
retain_kept p [] h = refl
retain_kept p (v ∷ vs) h = rw (h.0, retain) (ap (λ ws. v ∷ ws) (retain_kept p vs h.1))

-- The parts of joined words are the words.
nonempty_parts-joined_by :
    (ws : List Text) → All IsWord ws → nonempty_parts (joined_by 0x2C ws) ≡ ws
unfolding retain split_from
nonempty_parts-joined_by [] h = refl
nonempty_parts-joined_by (w ∷ ws) h =
    ap (retain (λ p. not (is_empty p)))
      (split-joined_by 0x2C w ws (map-All (w ∷ ws) (λ v p. p.0) h))
    ∙ retain_kept (λ p. not (is_empty p)) (w ∷ ws) (map-All (w ∷ ws) (λ v p. ap not p.1) h)

-- A flag that is announced is read without a panic.
parse_flag-is_announced :
    {F : Type 0} (o : Reader F) (f : Text)
    → is_announced f ≡ true
    → (g : Flag) × (parse_flag o f ≡ ok g)
unfolding parse_flag timeout_digits parse_crud_op same
parse_flag-is_announced o =
    is_announced-cases (λ f. (g : Flag) × (parse_flag o f ≡ ok g))
      (
        (crud_op create, refl),
        (
          (crud_op delete, refl),
          (
            (no_auth, refl),
            ((crud_op read, refl), ((other (codes "secret"), refl), ((crud_op update, refl), tt))),
          ),
        ),
      )
      timed
  where
    timed :
        (s : Text) (n : ℕ)
        → parse_unsigned 0xFFFFFFFF s ≡ some n
        → (g : Flag) × (parse_flag o (0x74 ∷ s) ≡ ok g)
    timed s n e = elim (Bool-cases (not (is_empty s) && all o.is_digit s)) [
      | inl digital ↦ (timeout n, rw (digital, e, parse_flag) refl)
      | inr plain ↦ (other (0x74 ∷ s), rw (plain, parse_flag) refl)
    ]

parse_each_total :
    {F : Type 0} (o : Reader F) (fs : List Text)
    → All (λ f. is_announced f ≡ true) fs
    → (gs : List Flag) × (parse_each o fs ≡ ok gs)
unfolding parse_each
parse_each_total o [] h = ([], refl)
parse_each_total o (f ∷ fs) h =
    let (g, e) = parse_flag-is_announced o f h.0 in
    let (gs, es) = parse_each_total o fs h.1 in (g ∷ gs, rw (e, es) refl)

chosen-All :
    (flags : List Text) → All (λ f. is_announced f ≡ true) (sort (retain is_announced flags))
chosen-All flags =
    sort-All (λ f. is_announced f ≡ true) (retain is_announced flags)
      (retain-All (λ f. is_announced f ≡ true) is_announced (λ f e. e) flags)

-- The flags of an announced action are read, each from its own text, in their order.
pub parse_flags-announced_flags :
    {F : Type 0} (o : Reader F) (flags : List Text)
    → parse_flags o (announced_flags flags) ≡ parse_each o (sort (retain is_announced flags))
unfolding parse_flags announced_flags
parse_flags-announced_flags o flags = ap (parse_each o) (
    nonempty_parts-joined_by (sort (retain is_announced flags))
      (map-All (sort (retain is_announced flags)) is_announced-IsWord (chosen-All flags)))

pub announced_flags_total :
    {F : Type 0} (o : Reader F) (flags : List Text)
    → (gs : List Flag) × (parse_each o (sort (retain is_announced flags)) ≡ ok gs)
announced_flags_total o flags =
    parse_each_total o (sort (retain is_announced flags)) (chosen-All flags)
