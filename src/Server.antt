-- ===== src/Server.antt =====
-- scamp/src/service: the server's side of a connection. `Reply` is server_reply.rs, `Routing` is
-- server_connection.rs; the types here are those of handler.rs.
pub mod Reply
pub mod Announce
pub mod Listener
pub mod Dispatch
pub mod Routing
use scamp_rs.Common.{ℕ, Option, none, some, List, [], Text, Bytes}
use scamp_rs.Common.Maps.{Map}
use scamp_rs.Json.{Value}
use scamp_rs.Proto.Header.{EnvelopeFormat, FlexInt, PacketHeader}
use scamp_rs.Proto.Packet.{Codec}
use scamp_rs.Proto.Packet.Write.{Writer}

pub record ScampRequest : Type 0 where
  pub action : Text
  pub version : ℕ
  pub envelope : EnvelopeFormat
  pub request_id : FlexInt
  pub client_id : FlexInt
  pub ticket : Text
  pub identifying_token : Text
  pub body : Bytes

pub record ScampReply : Type 0 where
  pub body : Bytes
  pub error : Option Text
  pub error_code : Option Text
  pub error_data : Option Value

-- `ScampReply::ok`
abbrev pub ok_reply : Bytes → ScampReply
ok_reply body = record { body = body; error = none; error_code = none; error_data = none }

-- `ScampReply::error_with_data`
abbrev pub error_with_data : Text → Text → Value → ScampReply
error_with_data message code value = record {
  body = [];
  error = some message;
  error_code = some code;
  error_data = some value;
}

-- `ScampReply::error`
abbrev pub error_reply : Text → Text → ScampReply
error_reply message code = record {
  body = [];
  error = some message;
  error_code = some code;
  error_data = none;
}

-- The handler is the application's; a handler that awaits is the function of its outcome.
pub record RegisteredAction : Type 0 where
  pub name : Text
  pub version : ℕ
  pub flags : List Text
  pub handler : ScampRequest → ScampReply

-- What `AuthzChecker::check_access` comes to: the error's text, if it is one.
pub data Access : Type 0 where
  granted : Access
  denied : Text → Access

-- What a connection is given: the registered actions by key, the checker for the action and the
-- ticket, `str::to_lowercase` and the JSON codec.
pub record Service : Type 0 where
  pub actions : Map Text RegisteredAction
  pub authz : Option (Text → Text → Access)
  pub to_lowercase : Text → Text
  pub codec : Codec

pub record IncomingRequest : Type 0 where
  pub header : PacketHeader
  pub body : Bytes
  pub received : ℕ

pub record OutgoingReplyState : Type 0 where
  pub sent : ℕ
  pub acknowledged : ℕ

-- The variables of `handle_connection`. `calls` is the history of the requests that went to a
-- handler, newest first, which the program does not keep.
pub record Connection : Type 0 where
  pub incoming : Map ℕ IncomingRequest
  pub outgoing : Map ℕ OutgoingReplyState
  pub next_incoming_msg_no : ℕ
  pub next_outgoing_msg_no : ℕ
  pub writer : Writer
  pub calls : List ScampRequest

-- `OutgoingReplyState::default()`
abbrev pub new_outgoing : OutgoingReplyState
new_outgoing = record { sent = 0; acknowledged = 0 }
