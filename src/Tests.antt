-- ===== src/Tests.antt =====
-- Concrete inputs on which the theorems are applied.
mod Wire
mod Connections
mod Access
mod Discovered
mod Announced
mod Configured
use scamp_rs.Common.{ℕ, Option, none, some, List, [], ◌∷◌, Bytes, codes}
use scamp_rs.Client.{Client}
use scamp_rs.Client.Sender.{from_stream}
use scamp_rs.Proto.{data_chunk}
use scamp_rs.Proto.Header.{PacketHeader, default_header}
use scamp_rs.Proto.Header.Struct.{to_json}
use scamp_rs.Proto.Packet.{Packet, Codec}
use scamp_rs.Proto.Packet.Write.{Writer}
use scamp_rs.Server.{Service, Connection}
use scamp_rs.Server.Routing.{new_connection}

abbrev pub header : PacketHeader
header = record default_header { action = codes "api.status"; request_id = 1 }

-- A codec that knows one header, and prints it as two braces.
abbrev pub codec : Codec
codec = record {
  text = record { print = λ v. 0x7B ∷ 0x7D ∷ []; parse = λ bs. some (to_json header) };
  of_array = λ xs. none;
}

abbrev pub body : Bytes
body = codes "hello"

abbrev pub data_sample : Packet
data_sample = record { packet_type = data_chunk; msg_no = 7; packet_header = none; body = body }

abbrev pub service : Service
service = record { actions = []; authz = none; to_lowercase = λ t. t; codec = codec }

abbrev pub writer : Writer
writer = record { sent = []; outcomes = [] }

abbrev pub server : Connection
server = new_connection writer

-- A client with one request under way.
abbrev pub client : Client
client = record (from_stream.client) { pending = (1, 1) ∷ [] }
