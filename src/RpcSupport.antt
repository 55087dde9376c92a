-- ===== src/RpcSupport.antt =====
-- rpc_support.rs: the names of actions that are found at start, and their registration.
use scamp_rs.Common.{
  ℕ, suc, Bool, true, false, Option, none, some, List, [], ◌∷◌, ◌++◌, map, Text, Bytes, codes, drop,
  is_empty, same, ◌==◌, if◌then◌else◌,
}
use scamp_rs.Proto.Header.{FlexInt}
use scamp_rs.Server.{ScampRequest, ScampReply, ok_reply, error_reply}
use scamp_rs.Server.Listener.{ScampService, register_with_flags}
use scamp_rs.Discovery.Address.{split_text_from}
use scamp_rs.Strings.Fields.{joined_by}
use scamp_rs.Strings.Utf8.{as_bytes}

pub record RequestContext : Type 0 where
  pub action : Text
  pub version : ℕ
  pub client_id : FlexInt
  pub ticket : Text
  pub identifying_token : Text
  pub body : Bytes

-- `IntoScampReply` of a text and of a result; an error is given by its display.
abbrev pub text_reply : Text → ScampReply
text_reply s = ok_reply (as_bytes s)

pub data Outcome {ℓ} (A : Type ℓ) : Type ℓ where
  ok : A → Outcome A
  err : Text → Outcome A

unfoldable pub result_reply {ℓ} : {A : Type ℓ} → (A → ScampReply) → Outcome A → ScampReply
result_reply into_scamp_reply (ok v) = into_scamp_reply v
result_reply into_scamp_reply (err e) = error_reply e (codes "error")

-- `Json`, over what `serde_json::to_vec` gives.
unfoldable pub json_reply : Outcome Bytes → ScampReply
json_reply (ok body) = ok_reply body
json_reply (err e) = error_reply e (codes "serialization_error")

-- A registration that the macro left; the state is in the handler.
pub record RpcRegistration : Type 0 where
  pub namespace : Text
  pub wire_name : Text
  pub version : ℕ
  pub flags : List Text
  pub sector : Option Text
  pub handler : RequestContext → ScampReply

unfoldable pub action_path : RpcRegistration → Text
action_path reg =
    if is_empty reg.namespace then reg.wire_name else reg.namespace ++ 0x2E ∷ reg.wire_name

-- `position(|&s| s == "actions")`.
position_of_actions : List Text → Option ℕ
position_of_actions [] = none
position_of_actions (s ∷ segments) = elim (position_of_actions segments) [
  | none ↦ if same s (codes "actions") then some 0 else none
  | some i ↦ if same s (codes "actions") then some 0 else some (suc i)
]

-- The loop over the characters, with `char::to_uppercase`.
pascal_from : (ℕ → Text) → Bool → Text → Text
pascal_from to_uppercase capitalize_next [] = []
pascal_from to_uppercase capitalize_next (ch ∷ s) =
    let after_mark = pascal_from to_uppercase true s in
    let rest = pascal_from to_uppercase false s in
    if ch == 0x5F
    then after_mark
    else if capitalize_next
    then to_uppercase ch ++ rest
    else ch ∷ rest

unfoldable pub snake_to_pascal : (ℕ → Text) → Text → Text
unfolding pascal_from
snake_to_pascal to_uppercase = pascal_from to_uppercase true

start_of : Option ℕ → ℕ
start_of none = 1
start_of (some i) = suc i

unfoldable pub module_path_to_namespace : (ℕ → Text) → Text → Text
unfolding position_of_actions snake_to_pascal start_of split_text_from
module_path_to_namespace to_uppercase module_path =
    let segments = split_text_from (codes "::") 0 [] module_path in
    joined_by 0x2E (
      map (λ s. snake_to_pascal to_uppercase s)
        (drop (start_of (position_of_actions segments)) segments))

-- The handler of a registration, as an action's handler.
abbrev pub action_handler : RpcRegistration → ScampRequest → ScampReply
action_handler reg req = reg.handler (record {
  action = req.action;
  version = req.version;
  client_id = req.client_id;
  ticket = req.ticket;
  identifying_token = req.identifying_token;
  body = req.body;
})

-- `auto_discover_into`: the version's bits are read as an `i32`.
unfoldable pub auto_discover_into :
    (Text → Text) → List RpcRegistration → ScampService → ScampService
unfolding register_with_flags action_path
auto_discover_into to_lowercase [] service = service
auto_discover_into to_lowercase (reg ∷ regs) service = auto_discover_into to_lowercase regs (
    register_with_flags to_lowercase (action_path reg) reg.version reg.flags (action_handler reg)
      service)
