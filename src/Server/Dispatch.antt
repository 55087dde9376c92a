-- ===== src/Server/Dispatch.antt =====
-- server_connection.rs, `dispatch_and_reply`.
pub mod Denial
use scamp_rs.Common.{
  ℕ, ◌-◌, ◌^◌, Bool, true, false, Option, none, some, ◌∷◌, ◌++◌, Text, codes, is_empty, any, same,
  ltb, if◌then◌else◌,
}
use scamp_rs.Common.Maps.{get, text_key}
use scamp_rs.Proto.Header.{PacketHeader}
use scamp_rs.Server.{
  ScampRequest, ScampReply, error_reply, RegisteredAction, Access, granted, denied, Service,
  IncomingRequest, Connection,
}
use scamp_rs.Server.Reply.{send_reply}
use scamp_rs.Strings.Decimal.{to_string}

-- An `i32` in decimal, from its bit pattern.
unfoldable pub i32_text : ℕ → Text
i32_text n = if ltb n (2 ^ 31) then to_string n else b'-' ∷ to_string (2 ^ 32 - n)

-- `format!("{}.v{}", action.to_lowercase(), version)`
unfoldable pub action_key : Service → PacketHeader → Text
action_key svc h = svc.to_lowercase h.action ++ (codes ".v" ++ i32_text h.version)

has_noauth : Option RegisteredAction → Bool
has_noauth none = false
has_noauth (some a) = any (λ f. same f (codes "noauth")) a.flags

unfoldable pub is_noauth : Service → PacketHeader → Bool
unfolding has_noauth
is_noauth svc h = has_noauth (get (action_key svc h) svc.actions)

refusal : Access → Option ScampReply
refusal granted = none
refusal (denied e) = some (error_reply e (codes "unauthorized"))

-- The reply of a request that may not reach its action.
unfoldable pub refuse : Option (Text → Text → Access) → Bool → PacketHeader → Option ScampReply
unfolding refusal
refuse none noauth h = none
refuse (some check) true h = none
refuse (some check) false h =
    if is_empty h.ticket
    then some (error_reply (codes "Authentication required") (codes "unauthorized"))
    else refusal (check h.action h.ticket)

abbrev pub request_of : IncomingRequest → ScampRequest
request_of msg = record {
  action = msg.header.action;
  version = msg.header.version;
  envelope = msg.header.envelope;
  request_id = msg.header.request_id;
  client_id = msg.header.client_id;
  ticket = msg.header.ticket;
  identifying_token = msg.header.identifying_token;
  body = msg.body;
}

-- The action's handler, or the reply that there is none.
unfoldable pub invoke :
    Service → IncomingRequest → Option RegisteredAction → Connection → Connection
invoke svc msg (some a) s =
    send_reply svc.codec (a.handler (request_of msg)) msg.header.request_id
      (record s { calls = request_of msg ∷ s.calls })
invoke svc msg none s =
    send_reply svc.codec
      (error_reply (codes "No such action: " ++ action_key svc msg.header) (codes "not_found"))
      msg.header.request_id s

unfoldable pub dispatch_and_reply : Service → IncomingRequest → Connection → Connection
unfolding refuse invoke
dispatch_and_reply svc msg s = elim (refuse svc.authz (is_noauth svc msg.header) msg.header) [
  | some reply ↦ send_reply svc.codec reply msg.header.request_id s
  | none ↦ invoke svc msg (get (action_key svc msg.header) svc.actions) s
]
