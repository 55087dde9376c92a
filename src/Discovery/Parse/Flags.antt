-- ===== src/Discovery/Parse/Flags.antt =====
-- discovery/service_info/parse.rs: flags and the path of an action.
use scamp_rs.Common.{
  ℕ, Bool, not, ◌&&◌, Option, none, some, List, [], ◌∷◌, ◌++◌, map, Text, codes, is_empty, all,
  same, ◌==◌, if◌then◌else◌,
}
use scamp_rs.Discovery.Announcement.{
  CrudOp, create, read, update, delete, Flag, no_auth, timeout, other, crud_op,
}
use scamp_rs.Common.{retain}
use scamp_rs.Strings.Decimal.{parse_unsigned, to_string}
use scamp_rs.Strings.Fields.{split}
use scamp_rs.Discovery.Parse.Result.{Parsed, ok, panics, ◌>>=◌, Reader}

unfoldable pub parse_crud_op : Text → Option CrudOp
parse_crud_op v =
    if same v (codes "create")
    then some create
    else if same v (codes "read")
    then some read
    else if same v (codes "update")
    then some update
    else if same v (codes "destroy")
    then some delete
    else none

-- The digits of `^t(\d+)$`.
unfoldable pub timeout_digits : (ℕ → Bool) → Text → Option Text
timeout_digits is_digit [] = none
timeout_digits is_digit (c ∷ s) =
    if c == 0x74 && (not (is_empty s) && all is_digit s) then some s else none

-- `replace('/', ".")`.
abbrev pub with_dots : Text → Text
with_dots = map (λ c. if c == 0x2F then 0x2E else c)

abbrev pub nonempty_parts : Text → List Text
nonempty_parts s = retain (λ p. not (is_empty p)) (split 0x2C s)

module _ {F : Type 0} (o : Reader F) where
  unfoldable pub parse_flag : Text → Parsed Flag
  unfolding parse_crud_op timeout_digits
  parse_flag v =
      if same v (codes "noauth") then ok no_auth else elim (timeout_digits o.is_digit v) [
        | some digits ↦ elim (parse_unsigned 0xFFFFFFFF digits) [
          | some n ↦ ok (timeout n)
          | none ↦ panics
        ]
        | none ↦ elim (parse_crud_op v) [ some op ↦ ok (crud_op op) | none ↦ ok (other v) ]
      ]

  unfoldable pub parse_each : List Text → Parsed (List Flag)
  unfolding parse_flag
  parse_each [] = ok []
  parse_each (v ∷ vs) = do f ← parse_flag v; fs ← parse_each vs; ok (f ∷ fs)

  unfoldable pub parse_flags : Text → Parsed (List Flag)
  unfolding parse_each
  parse_flags flags = parse_each (nonempty_parts flags)

  -- `format!("{}.{}", namespace, name).to_lowercase().replace('/', ".")`
  unfoldable pub action_path : Text → Text → Text
  action_path namespace name = with_dots (o.to_lowercase (namespace ++ 0x2E ∷ name))

  abbrev pub pathver_of : Text → ℕ → Text
  pathver_of path version = path ++ 0x7E ∷ to_string version
