-- ===== src/Discovery/Parse/V4.antt =====
-- discovery/service_info/parse.rs, `parse_v4_actions`.
use scamp_rs.Common.{
  ℕ, true, false, not, List, [], ◌∷◌, ◌++◌, Text, codes, length, ◌==◌, if◌then◌else◌,
}
use scamp_rs.Discovery.Announcement.{v4, Action}
use scamp_rs.Json.{Fields}
use scamp_rs.Discovery.Parse.Result.{Parsed, ok, ◌>>=◌, Reader}
use scamp_rs.Discovery.Parse.Columns.{unrle, text_column, u32_column}
use scamp_rs.Discovery.Parse.Flags.{nonempty_parts, parse_flags, action_path, pathver_of}

-- `izip!` of two iterators; it nests to the right.
unfoldable pub zip {ℓ κ} : {A : Type ℓ} {B : Type κ} → List A → List B → List (A × B)
zip [] ys = []
zip (x ∷ xs) [] = []
zip (x ∷ xs) (y ∷ ys) = (x, y) ∷ zip xs ys

module _ {F : Type 0} (o : Reader F) where
  -- One row of the columns.
  unfoldable pub v4_action :
      Text × (Text × (ℕ × (ℕ × (Text × (Text × Text))))) → Parsed (List Action)
  unfolding parse_flags action_path
  v4_action (namespace, (name, (compat, (ver, (flags, (envelopes, sector)))))) =
      if not (compat == 1) then ok [] else do
        parsed ← parse_flags o flags
        let path = action_path o namespace name
        ok (
            record {
              path = path;
              version = ver;
              pathver = pathver_of o path ver;
              flags = parsed;
              sector = o.to_lowercase sector;
              envelopes = nonempty_parts envelopes;
              packet_section = v4;
            }
            ∷ [])

  unfoldable pub v4_actions :
      List (Text × (Text × (ℕ × (ℕ × (Text × (Text × Text)))))) → Parsed (List Action)
  unfolding v4_action
  v4_actions [] = ok []
  v4_actions (row ∷ rows) = do action ← v4_action row; more ← v4_actions rows; ok (action ++ more)

  unfoldable pub parse_v4_actions : Fields → Parsed (List Action)
  unfolding unrle zip v4_actions
  parse_v4_actions fields = do
    namespaces ← unrle text_column (codes "acns") fields true 0
    names ← unrle text_column (codes "acname") fields true 0
    let len = length names
    envelopess ← unrle text_column (codes "acenv") fields true 0
    sectors ← unrle text_column (codes "acsec") fields true 0
    compats ← unrle u32_column (codes "accompat") fields false len
    acvers ← unrle u32_column (codes "acver") fields false len
    flagss ← unrle text_column (codes "acflag") fields false len
    v4_actions (
        zip namespaces (zip names (zip compats (zip acvers (zip flagss (zip envelopess sectors))))))
