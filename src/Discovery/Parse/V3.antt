-- ===== src/Discovery/Parse/V3.antt =====
-- discovery/service_info/parse.rs, `parse_v3_actions`.
use scamp_rs.Common.{ℕ, ◌+◌, ◌%◌, ◌^◌, List, [], ◌∷◌, ◌++◌, Text, codes}
use scamp_rs.Discovery.Announcement.{v3, Action}
use scamp_rs.Json.{Value, num, neg, float, arr, cons, as_str, to_list}
use scamp_rs.Discovery.Parse.Result.{
  missing_field, invalid_v3_namespace, invalid_v3_action, Parsed, ok, err, ◌>>=◌, ok_or, Reader,
}
use scamp_rs.Discovery.Parse.Flags.{parse_flags, action_path, pathver_of}

module _ {F : Type 0} (o : Reader F) where
  -- The version of a v3 action: a number, or 1.
  unfoldable pub v3_version : ℕ → ℕ → List Value → Parsed ℕ
  v3_version ns_i ac_i (num n ∷ rest) = ok (n % 2 ^ 32)
  v3_version ns_i ac_i (neg n ∷ rest) =
      err (invalid_v3_action ns_i ac_i (codes "version must be number"))
  v3_version ns_i ac_i (float n ∷ rest) =
      err (invalid_v3_action ns_i ac_i (codes "version must be number"))
  v3_version ns_i ac_i rest = ok 1

  unfoldable pub v3_fields :
      ℕ → ℕ → Text → Text → List Text → Value → Value → List Value → Parsed Action
  unfolding v3_version parse_flags action_path
  v3_fields ns_i ac_i namespace sector envelopes name flags version = do
    name ← ok_or (invalid_v3_action ns_i ac_i (codes "name")) (as_str name)
    flags ← ok_or (invalid_v3_action ns_i ac_i (codes "flags")) (as_str flags)
    version ← v3_version ns_i ac_i version
    parsed ← parse_flags o flags
    let path = action_path o namespace name
    ok (record {
      path = path;
      version = version;
      pathver = pathver_of o path version;
      flags = parsed;
      sector = sector;
      envelopes = envelopes;
      packet_section = v3;
    })

  -- The items of an action.
  unfoldable pub v3_items : ℕ → ℕ → Text → Text → List Text → List Value → Parsed Action
  unfolding v3_fields
  v3_items ns_i ac_i namespace sector envelopes (name ∷ flags ∷ []) =
      v3_fields ns_i ac_i namespace sector envelopes name flags []
  v3_items ns_i ac_i namespace sector envelopes (name ∷ flags ∷ version ∷ []) =
      v3_fields ns_i ac_i namespace sector envelopes name flags (version ∷ [])
  v3_items ns_i ac_i namespace sector envelopes xs =
      err (invalid_v3_action ns_i ac_i (codes "not array of length 2-3"))

  unfoldable pub v3_action : ℕ → ℕ → Text → Text → List Text → Value → Parsed Action
  unfolding v3_items
  v3_action ns_i ac_i namespace sector envelopes (arr xs) =
      v3_items ns_i ac_i namespace sector envelopes (to_list xs)
  v3_action ns_i ac_i namespace sector envelopes v =
      err (invalid_v3_action ns_i ac_i (codes "not array of length 2-3"))

  unfoldable pub v3_actions : ℕ → ℕ → Text → Text → List Text → List Value → Parsed (List Action)
  unfolding v3_action
  v3_actions ns_i ac_i namespace sector envelopes [] = ok []
  v3_actions ns_i ac_i namespace sector envelopes (ac ∷ acs) = do
    action ← v3_action ns_i ac_i namespace sector envelopes ac
    more ← v3_actions ns_i (ac_i + 1) namespace sector envelopes acs
    ok (action ∷ more)

  unfoldable pub v3_namespace : ℕ → Text → List Text → Value → Parsed (List Action)
  unfolding v3_actions
  v3_namespace ns_i sector envelopes (arr (cons ns acs)) = do
    namespace ← ok_or (missing_field (codes "namespace [0]")) (as_str ns)
    v3_actions ns_i 0 namespace sector envelopes (to_list acs)
  v3_namespace ns_i sector envelopes v = err (invalid_v3_namespace ns_i)

  unfoldable pub v3_namespaces : ℕ → Text → List Text → List Value → Parsed (List Action)
  unfolding v3_namespace
  v3_namespaces ns_i sector envelopes [] = ok []
  v3_namespaces ns_i sector envelopes (ns ∷ nss) = do
    actions ← v3_namespace ns_i sector envelopes ns
    more ← v3_namespaces (ns_i + 1) sector envelopes nss
    ok (actions ++ more)

  unfoldable pub parse_v3_actions : List Value → Text → List Text → Parsed (List Action)
  parse_v3_actions nss sector envelopes = v3_namespaces 0 sector envelopes nss
