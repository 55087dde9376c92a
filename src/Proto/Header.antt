-- ===== src/Proto/Header.antt =====
-- scamp/src/transport/beepish/proto/header.rs: the packet header, and its fields on the wire.
pub mod Fields
pub mod Struct
pub mod RoundTrip
use Prim.Native.Nat.{ℕ}
use mathlib.Core.Option.{Option, none, some}
use scamp_rs.Common.{Text, codes, same, if◌then◌else◌}
use scamp_rs.Common.Words.{u64_mod}
use scamp_rs.Json.{Value}

pub data EnvelopeFormat : Type 0 where
  json : EnvelopeFormat
  json_store : EnvelopeFormat
  other : Text → EnvelopeFormat

pub data MessageType : Type 0 where
  request reply : MessageType

-- `FlexInt(i64)`, by its bit pattern.
abbrev pub FlexInt : Type 0
FlexInt = ℕ

-- `version` is an `i32`, by its bit pattern.
pub record PacketHeader : Type 0 where
  pub action : Text
  pub envelope : EnvelopeFormat
  pub error : Option Text
  pub error_code : Option Text
  pub error_data : Option Value
  pub request_id : FlexInt
  pub client_id : FlexInt
  pub ticket : Text
  pub identifying_token : Text
  pub message_type : MessageType
  pub version : ℕ

-- `PacketHeader::default()`.
abbrev pub default_header : PacketHeader
default_header = record {
  action = codes "";
  envelope = json;
  error = none;
  error_code = none;
  error_data = none;
  request_id = 0;
  client_id = 0;
  ticket = codes "";
  identifying_token = codes "";
  message_type = request;
  version = 1;
}
