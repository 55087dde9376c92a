-- ===== src/Client.antt =====
-- scamp/src/transport/beepish/client: the client's side of a connection. `Reader` is reader.rs,
-- `Sender` is `send_request` of connection.rs; the state that the two tasks share stands here.
pub mod Reader
pub mod Sender
pub mod Pool
use scamp_rs.Common.{ℕ, Bool, Option, none, some, List, [], Text, Bytes}
use scamp_rs.Common.Maps.{Map}
use scamp_rs.Proto.Header.{PacketHeader, FlexInt}
use scamp_rs.Proto.Packet.{Packet}

pub record ScampResponse : Type 0 where
  pub header : PacketHeader
  pub body : Bytes
  pub error : Option Text

pub record IncomingMessage : Type 0 where
  pub header : PacketHeader
  pub body : Bytes
  pub received : ℕ

pub record OutgoingState : Type 0 where
  pub sent : ℕ
  pub acknowledged : ℕ

-- `OutgoingState::default()`
abbrev pub new_outgoing : OutgoingState
new_outgoing = record { sent = 0; acknowledged = 0 }

-- What the tasks of a connection share, with the variables of the reader. A sender of `pending` is
-- named by the number of its request, and `delivered` has what was sent on those one-shot channels,
-- newest first. `queue` has the packets given to `writer_tx`, oldest first, while the channel is
-- open. `permit` is the one that `Notify` stores for the next to wait.
pub record Client : Type 0 where
  pub incoming : Map ℕ IncomingMessage
  pub next_incoming_msg_no : ℕ
  pub pending : Map FlexInt ℕ
  pub delivered : List (ℕ × ScampResponse)
  pub outgoing : Map ℕ OutgoingState
  pub queue : List Packet
  pub queue_open : Bool
  pub permit : Bool
  pub closed : Bool
  pub next_request_id : ℕ
  pub next_outgoing_msg_no : ℕ
