-- ===== src/Config.antt =====
-- config.rs: the tree of settings, its parser, its lookup and its print. Which file is read is not
-- modelled: that depends on the environment.
pub mod Ordered
pub mod Lookup
pub mod Print
use scamp_rs.Common.{
  ℕ, zero, suc, ◌+◌, Bool, true, false, Option, none, some, List, [], ◌∷◌, ◌++◌, Text, codes,
  is_empty, same, ltb, ◌==◌, if◌then◌else◌, ◌>>=◌,
}
use scamp_rs.Strings.Decimal.{parse_u64, to_string}
use scamp_rs.Strings.Fields.{split}
use scamp_rs.Strings.Lines.{lines, trim, before_first, split_once}

-- `ConfElement`: its value, its list, and its children with their keys, sorted as in a `BTreeMap`.
mutual
  pub data ConfElement : Type 0 where
    element : Option Text → Elements → Children → ConfElement

  pub data Elements : Type 0 where
    no_more : Elements
    next : ConfElement → Elements → Elements

  pub data Children : Type 0 where
    no_child : Children
    child : Text → ConfElement → Children → Children

abbrev pub default_element : ConfElement
default_element = element none no_more no_child

abbrev pub value_of : ConfElement → Option Text
value_of (element v list children) = v

-- `resize_with` to one more than the index, and the element there changed.
unfoldable pub update_at : ℕ → (ConfElement → ConfElement) → Elements → Elements
update_at zero f no_more = next (f default_element) no_more
update_at zero f (next e es) = next (f e) es
update_at (suc n) f no_more = next default_element (update_at n f no_more)
update_at (suc n) f (next e es) = next e (update_at n f es)

-- Strings in the order of their characters.
unfoldable pub text_ltb : Text → Text → Bool
text_ltb s [] = false
text_ltb [] (d ∷ t) = true
text_ltb (c ∷ s) (d ∷ t) =
    let rest = text_ltb s t in if ltb c d then true else if c == d then rest else false

-- `entry(key).or_insert_with(ConfElement::default)`, changed.
unfoldable pub update_child : Text → (ConfElement → ConfElement) → Children → Children
unfolding text_ltb
update_child key f no_child = child key (f default_element) no_child
update_child key f (child k e es) =
    let rest = update_child key f es in
    if same k key
    then child k (f e) es
    else if text_ltb key k
    then child key (f default_element) (child k e es)
    else child k e rest

-- The first value of a key stays.
unfoldable pub set_value : Text → ConfElement → ConfElement
set_value v (element none list children) = element (some v) list children
set_value v (element (some w) list children) = element (some w) list children

-- The walk along the segments of a key, to the element whose value is set.
unfoldable pub enter : List Text → Text → ConfElement → ConfElement
unfolding update_at update_child set_value
enter [] v e = set_value v e
enter (segment ∷ segments) v (element w list children) = elim (parse_u64 segment) [
  | some num ↦ element w (update_at num (enter segments v) list) children
  | none ↦ element w list (update_child segment (enter segments v) children)
]

-- A compiled regular expression.
pub record Pattern : Type 0 where
  pub is_match : Text → Bool
  pub replace_all : Text → Text → Text

pub record ConfRewrite : Type 0 where
  pub key_match : Option Pattern
  pub value_match : Option Pattern
  pub value_replacer : Option Text

rewrite_value : ConfRewrite → Text → Text
rewrite_value rewrite value = elim rewrite.value_match [
  | none ↦ value
  | some value_match ↦ elim rewrite.value_replacer [
    | none ↦ value
    | some value_replacer ↦ value_match.replace_all value value_replacer
  ]
]

applies : Text → ConfRewrite → Bool
applies key rewrite = elim rewrite.key_match [
  | none ↦ true
  | some key_match ↦ key_match.is_match key
]

unfoldable pub rewritten : List ConfRewrite → Text → Text → Text
unfolding rewrite_value applies
rewritten [] key value = value
rewritten (rewrite ∷ rewrites) key value =
    rewritten rewrites key (if applies key rewrite then rewrite_value rewrite value else value)

-- The key and the value of a line, if it has both.
unfoldable pub assignment : Text → Option (Text × Text)
assignment line =
    let line = trim (before_first 0x23 line) in
    if is_empty line then none else elim (split_once (λ c. c == 0x3D) line) [
      | none ↦ none
      | some (k, v) ↦ some (trim k, trim v)
    ]

-- One line.
unfoldable pub read_line : List ConfRewrite → Text → ConfElement → ConfElement
unfolding assignment rewritten enter
read_line rewrites line root = elim (assignment line) [
  | none ↦ root
  | some (key, value) ↦ enter (split 0x2E key) (rewritten rewrites key value) root
]

unfoldable pub read_lines : List ConfRewrite → List Text → ConfElement → ConfElement
unfolding read_line
read_lines rewrites [] root = root
read_lines rewrites (line ∷ rest) root = read_lines rewrites rest (read_line rewrites line root)

unfoldable pub parse_config : Text → List ConfRewrite → ConfElement
unfolding read_lines lines
parse_config config rewrites = read_lines rewrites (lines config) default_element

-- `BTreeMap::get`: the keys are sorted, so that the search stops at a greater one.
unfoldable pub find_child : Text → Children → Option ConfElement
unfolding text_ltb
find_child key no_child = none
find_child key (child k e es) =
    let rest = find_child key es in
    if same k key then some e else if text_ltb key k then none else rest

-- `ConfElement::get`, along the segments.
unfoldable pub get_element : List Text → ConfElement → Option ConfElement
unfolding find_child
get_element [] e = some e
get_element (segment ∷ segments) (element v list children) = do
  e ← find_child segment children
  get_element segments e

abbrev pub value_in : Option ConfElement → Option Text
value_in none = none
value_in (some e) = value_of e

-- `Config::get`, before the value is parsed.
unfoldable pub get_value : Text → ConfElement → Option Text
unfolding get_element
get_value key root = value_in (get_element (split 0x2E key) root)
