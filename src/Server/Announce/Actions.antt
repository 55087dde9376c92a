-- ===== src/Server/Announce/Actions.antt =====
-- service/announce.rs: the actions of an announcement, by namespace; `ActionInfo` of handler.rs.
use scamp_rs.Common.{
  ℕ, Bool, true, false, not, ◌&&◌, ◌||◌, none, some, List, [], ◌∷◌, ◌++◌, Text, codes, same, ltb,
  ◌==◌, if◌then◌else◌,
}
use scamp_rs.Common.{retain}
use scamp_rs.Json.{Value, str, arr, of_list}
use scamp_rs.Proto.Header.Fields.{write_i32}
use scamp_rs.Strings.Decimal.{parse_unsigned}
use scamp_rs.Strings.Fields.{rsplit_once, joined_by}

pub record ActionInfo : Type 0 where
  pub name : Text
  pub version : ℕ
  pub flags : List Text

abbrev pub announceable : List Text
announceable =
    codes "create"
    ∷ codes "destroy"
    ∷ codes "noauth"
    ∷ codes "read"
    ∷ codes "secret"
    ∷ codes "update"
    ∷ []

-- `<[_]>::contains`.
unfoldable pub contains : Text → List Text → Bool
contains v [] = false
contains v (w ∷ ws) = same w v || contains v ws

-- `f.starts_with('t') && f[1..].parse::<u32>().is_ok()`
unfoldable pub is_timeout_flag : Text → Bool
is_timeout_flag [] = false
is_timeout_flag (c ∷ s) =
    c == 0x74 && elim (parse_unsigned 0xFFFFFFFF s) [ some n ↦ true | none ↦ false ]

unfoldable pub is_announced : Text → Bool
unfolding contains is_timeout_flag
is_announced f = contains f announceable || is_timeout_flag f

-- The order of strings: that of their characters.
unfoldable pub text_leb : Text → Text → Bool
text_leb [] ws = true
text_leb (c ∷ s) [] = false
text_leb (c ∷ s) (d ∷ t) =
    let rest = text_leb s t in if ltb c d then true else if c == d then rest else false

-- `sort` of strings, where equal ones cannot be told apart.
unfoldable pub insert_sorted : Text → List Text → List Text
unfolding text_leb
insert_sorted v [] = v ∷ []
insert_sorted v (w ∷ ws) =
    let rest = insert_sorted v ws in if text_leb v w then v ∷ w ∷ ws else w ∷ rest

unfoldable pub sort : List Text → List Text
unfolding insert_sorted
sort [] = []
sort (v ∷ vs) = insert_sorted v (sort vs)

unfoldable pub announced_flags : List Text → Text
unfolding is_announced sort
announced_flags flags = joined_by 0x2C (sort (retain is_announced flags))

-- `[method, flags]`, with the version where it is not 1.
unfoldable pub action_array : Text → Text → ℕ → Value
action_array method flags version =
    arr (
      of_list
        (str method ∷ str flags ∷ (if not (version == 1) then write_i32 version ∷ [] else [])))

-- `v3_class_map`: a `BTreeMap`, as a list sorted by its keys.
abbrev pub ClassMap : Type 0
ClassMap = List (Text × List Value)

-- `entry(namespace).or_default().push(v)`.
unfoldable pub push_class : Text → Value → ClassMap → ClassMap
unfolding text_leb
push_class ns v [] = (ns, v ∷ []) ∷ []
push_class ns v ((k, vs) ∷ classes) =
    let rest = push_class ns v classes in
    if same k ns
    then (k, vs ++ v ∷ []) ∷ classes
    else if text_leb ns k
    then (ns, v ∷ []) ∷ (k, vs) ∷ classes
    else (k, vs) ∷ rest

unfoldable pub add_action : ActionInfo → ClassMap → ClassMap
unfolding announced_flags action_array push_class
add_action action classes = elim (rsplit_once 0x2E action.name) [
  | none ↦ classes
  | some (namespace, method) ↦
      push_class namespace (action_array method (announced_flags action.flags) action.version)
        classes
]

-- The loop over the actions, behind those read before.
unfoldable pub class_map : List ActionInfo → ClassMap → ClassMap
unfolding add_action
class_map [] classes = classes
class_map (action ∷ actions) classes = class_map actions (add_action action classes)

unfoldable pub class_arrays : ClassMap → List Value
class_arrays [] = []
class_arrays ((ns, methods) ∷ classes) = arr (of_list (str ns ∷ methods)) ∷ class_arrays classes
