-- ===== src/Config/Lookup.antt =====
-- config.rs: a setting is looked up as the first of its assignments.
use scamp_rs.Common.{
  ◌≡◌, ◌≢◌, refl, sym, ap, subst, ◌∙◌, Option, none, some, List, [], ◌∷◌, Text, All, unwrap_or,
  Bool-cases, Option-cases, inl, inr, same, same→eq, if◌then◌else◌, arith,
}
use scamp_rs.Config.{
  ConfElement, element, Elements, Children, default_element, update_child, set_value, enter,
  ConfRewrite, rewritten, assignment, read_line, read_lines, parse_config, find_child, get_element,
  get_value, value_in,
}
use scamp_rs.Config.Ordered.{same_refl, find_child-update_child, find_child-update_child_other}
use scamp_rs.Strings.Fields.Laws.{split-injective}
use scamp_rs.Strings.Decimal.{parse_u64}
use scamp_rs.Strings.Fields.{split}
use scamp_rs.Strings.Lines.{lines}

-- The value of the element at the segments.
abbrev value_at : List Text → ConfElement → Option Text
value_at segments e = value_in (get_element segments e)

-- No segment is a number.
abbrev pub IsNamed : List Text → Type 0
IsNamed = All (λ segment. parse_u64 segment ≡ none)

-- The first value that is there, or else the other.
abbrev pub or_value : Option Text → Text → Option Text
or_value none v = some v
or_value (some w) v = some w

abbrev or_else : Option Text → Option Text → Option Text
or_else none o = o
or_else (some w) o = some w

value_at_default : (segments : List Text) → value_at segments default_element ≡ none
unfolding get_element find_child
value_at_default [] = refl
value_at_default (s ∷ segments) = refl

-- The value below a child that may not be there.
value_at_below :
    (s : Text) (segments : List Text) (v : Option Text) (list : Elements) (es : Children)
    → value_at (s ∷ segments) (element v list es)
      ≡ value_at segments (unwrap_or (find_child s es) default_element)
unfolding get_element
value_at_below s segments v list es = elim (Option-cases (find_child s es)) [
  | inl missing ↦ rw (missing, get_element) (sym (value_at_default segments))
  | inr (e, there) ↦ rw (there, get_element) refl
]

value_at-enter :
    (segments : List Text) (v : Text) (e : ConfElement)
    → IsNamed segments
    → value_at segments (enter segments v e) ≡ or_value (value_at segments e) v
unfolding enter set_value get_element
value_at-enter [] v (element none list es) h = refl
value_at-enter [] v (element (some w) list es) h = refl
value_at-enter (s ∷ segments) v (element w list es) (hs, h) =
    rw (hs, enter)
      (value_at_below s segments w list (update_child s (enter segments v) es)
        ∙ rw (find_child-update_child s (enter segments v) es)
            (value_at-enter segments v (unwrap_or (find_child s es) default_element) h)
        ∙ ap (λ o. or_value o v) (sym (value_at_below s segments w list es)))

value_at-enter_other :
    (segments others : List Text) (v : Text) (e : ConfElement)
    → IsNamed others
    → segments ≢ others
    → value_at others (enter segments v e) ≡ value_at others e
unfolding enter set_value get_element
value_at-enter_other [] [] v e h differ = absurd (differ refl)
value_at-enter_other [] (t ∷ others) v (element none list es) h differ = refl
value_at-enter_other [] (t ∷ others) v (element (some w) list es) h differ = refl
value_at-enter_other (s ∷ segments) [] v (element w list es) h differ =
    elim (Option-cases (parse_u64 s)) [
      | inl named ↦ rw (named, enter) refl
      | inr (n, number) ↦ rw (number, enter) refl
    ]
value_at-enter_other (s ∷ segments) (t ∷ others) v (element w list es) (ht, h) differ =
    elim (Option-cases (parse_u64 s)) [
      | inr (n, number) ↦ rw (number, enter) refl
      | inl named ↦ elim (Bool-cases (same s t)) [
        | inr unlike ↦
            rw (named, enter)
              (value_at_below t others w list (update_child s (enter segments v) es)
                ∙ rw (find_child-update_child_other s t (enter segments v) es unlike)
                    (sym (value_at_below t others w list es)))
        | inl alike ↦
            let equal : (s ≡ t) = same→eq s t alike in
            rw (named, enter)
              (value_at_below t others w list (update_child s (enter segments v) es)
                ∙ ap
                    (λ n. value_at others (
                      unwrap_or (find_child n (update_child s (enter segments v) es))
                        default_element))
                    (sym equal)
                ∙ rw (find_child-update_child s (enter segments v) es) (
                    value_at-enter_other segments others v
                      (unwrap_or (find_child s es) default_element) h
                      (λ e. differ (ap (λ n. n ∷ segments) equal ∙ ap (λ ss. t ∷ ss) e)))
                ∙ ap (λ n. value_at others (unwrap_or (find_child n es) default_element)) equal
                ∙ sym (value_at_below t others w list es))
      ]
    ]

-- The assignments of the lines, in their order, each with its value rewritten.
unfoldable pub assignments : List ConfRewrite → List Text → List (Text × Text)
assignments rewrites [] = []
assignments rewrites (line ∷ rest) = elim (assignment line) [
  | none ↦ assignments rewrites rest
  | some (key, value) ↦ (key, rewritten rewrites key value) ∷ assignments rewrites rest
]

-- The value of the first assignment to the key.
unfoldable pub first_assigned : Text → List (Text × Text) → Option Text
first_assigned key [] = none
first_assigned key ((k, v) ∷ more) =
    let rest = first_assigned key more in if same k key then some v else rest

read_line-skip :
    (rewrites : List ConfRewrite) (line : Text) (root : ConfElement)
    → assignment line ≡ none
    → read_line rewrites line root ≡ root
unfolding read_line
read_line-skip rewrites line root e = rw (e, read_line) refl

read_line-enter :
    (rewrites : List ConfRewrite) (line k v : Text) (root : ConfElement)
    → assignment line ≡ some (k, v)
    → read_line rewrites line root ≡ enter (split 0x2E k) (rewritten rewrites k v) root
unfolding read_line
read_line-enter rewrites line k v root e = rw (e, read_line) refl

assignments-skip :
    (rewrites : List ConfRewrite) (line : Text) (ls : List Text)
    → assignment line ≡ none
    → assignments rewrites (line ∷ ls) ≡ assignments rewrites ls
unfolding assignments
assignments-skip rewrites line ls e = rw (e, assignments) refl

assignments-cons :
    (rewrites : List ConfRewrite) (line k v : Text) (ls : List Text)
    → assignment line ≡ some (k, v)
    → assignments rewrites (line ∷ ls) ≡ (k, rewritten rewrites k v) ∷ assignments rewrites ls
unfolding assignments
assignments-cons rewrites line k v ls e = rw (e, assignments) refl

first_assigned-nil :
    (rewrites : List ConfRewrite) (key : Text) → first_assigned key (assignments rewrites []) ≡ none
unfolding first_assigned assignments
first_assigned-nil rewrites key = refl

or_else-none : (o : Option Text) → or_else o none ≡ o
or_else-none none = refl
or_else-none (some v) = refl

or_else-or_value : (o p : Option Text) (v : Text) → or_else (or_value o v) p ≡ or_else o (some v)
or_else-or_value none p v = refl
or_else-or_value (some w) p v = refl

read_lines-first_assigned :
    (rewrites : List ConfRewrite) (key : Text) (ls : List Text) (root : ConfElement)
    → IsNamed (split 0x2E key)
    → value_at (split 0x2E key) (read_lines rewrites ls root)
      ≡ or_else (value_at (split 0x2E key) root) (first_assigned key (assignments rewrites ls))
unfolding read_lines first_assigned
read_lines-first_assigned rewrites key [] root h =
    sym (or_else-none (value_at (split 0x2E key) root))
    ∙ ap (or_else (value_at (split 0x2E key) root)) (sym (first_assigned-nil rewrites key))
read_lines-first_assigned rewrites key (line ∷ ls) root h = elim (Option-cases (assignment line)) [
  | inl nothing ↦
      read_lines-first_assigned rewrites key ls (read_line rewrites line root) h
      ∙ ap
          (λ r.
            or_else (value_at (split 0x2E key) r) (first_assigned key (assignments rewrites ls)))
          (read_line-skip rewrites line root nothing)
      ∙ ap (λ a. or_else (value_at (split 0x2E key) root) (first_assigned key a))
          (sym (assignments-skip rewrites line ls nothing))
  | inr ((k, v), assigned) ↦
      read_lines-first_assigned rewrites key ls (read_line rewrites line root) h
      ∙ ap
          (λ r.
            or_else (value_at (split 0x2E key) r) (first_assigned key (assignments rewrites ls)))
          (read_line-enter rewrites line k v root assigned)
      ∙ entered k (rewritten rewrites k v)
      ∙ ap (λ a. or_else (value_at (split 0x2E key) root) (first_assigned key a))
          (sym (assignments-cons rewrites line k v ls assigned))
]
  where
    entered :
        (k v : Text)
        → or_else
            (value_at (split 0x2E key) (enter (split 0x2E k) v root))
            (first_assigned key (assignments rewrites ls))
          ≡ or_else
              (value_at (split 0x2E key) root)
              (first_assigned key ((k, v) ∷ assignments rewrites ls))
    entered k v = elim (Bool-cases (same k key)) [
      | inl alike ↦
          let equal : (split 0x2E key ≡ split 0x2E k) =
            ap (split 0x2E) (sym (same→eq k key alike)) in
          let rest = first_assigned key (assignments rewrites ls) in
          ap (λ ss. or_else (value_at ss (enter (split 0x2E k) v root)) rest) equal
          ∙ ap (λ o. or_else o rest) (value_at-enter (split 0x2E k) v root (subst IsNamed equal h))
          ∙ or_else-or_value (value_at (split 0x2E k) root) rest v
          ∙ ap (λ ss. or_else (value_at ss root) (some v)) (sym equal)
          ∙ ap (or_else (value_at (split 0x2E key) root)) (rw (alike, first_assigned) refl)
      | inr unlike ↦
          rw
            (value_at-enter_other (split 0x2E k) (split 0x2E key) v root h (λ e. ground (
              arith,
              sym unlike ∙ ap (λ n. same n key) (split-injective 0x2E k key e) ∙ same_refl key,
            )))
            (rw (unlike, first_assigned) refl)
    ]

-- A setting whose key has no number among its segments is looked up as the value of the first of the
-- file's assignments to that key, after the rewrites; without an assignment it is not there. The
-- assignments to other keys, also those with numbers in them, do not matter.
pub get_value-parse_config :
    (config key : Text) (rewrites : List ConfRewrite)
    → IsNamed (split 0x2E key)
    → get_value key (parse_config config rewrites)
      ≡ first_assigned key (assignments rewrites (lines config))
unfolding get_value parse_config
get_value-parse_config config key rewrites h =
    read_lines-first_assigned rewrites key (lines config) default_element h
    ∙ ap (λ o. or_else o (first_assigned key (assignments rewrites (lines config))))
        (value_at_default (split 0x2E key))
