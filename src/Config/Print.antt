-- ===== src/Config/Print.antt =====
-- config.rs: `write_to_file`, as the text that is written; a writer that fails is not modelled.
use scamp_rs.Common.{
  ℕ, suc, Option, none, some, ◌∷◌, [], ◌++◌, Text, codes, is_empty, if◌then◌else◌,
}
use scamp_rs.Config.{ConfElement, element, Elements, no_more, next, Children, no_child, child}
use scamp_rs.Strings.Decimal.{to_string}

value_line : Text → Option Text → Text
value_line prefix none = []
value_line prefix (some value) = prefix ++ (codes " = " ++ (value ++ 0x0A ∷ []))

child_prefix : Text → Text → Text
child_prefix prefix key = if is_empty prefix then key else prefix ++ 0x2E ∷ key

mutual
  unfolding value_line child_prefix to_string

  pub write_to_file : Text → ConfElement → Text
  write_to_file prefix (element value list children) =
      value_line prefix value ++ (write_children prefix children ++ write_list prefix 0 list)

  write_children : Text → Children → Text
  write_children prefix no_child = []
  write_children prefix (child key e es) =
      write_to_file (child_prefix prefix key) e ++ write_children prefix es

  write_list : Text → ℕ → Elements → Text
  write_list prefix i no_more = []
  write_list prefix i (next e es) =
      write_to_file (prefix ++ 0x2E ∷ to_string i) e ++ write_list prefix (suc i) es
