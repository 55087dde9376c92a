-- ===== src/Proto.antt =====
-- scamp/src/transport/beepish/proto: the wire protocol. `Header` is header.rs, `Packet` packet.rs;
-- the constants and the packet types are those of mod.rs.
pub mod Header
pub mod Packet
pub mod Message
use Prim.Native.Nat.{ℕ}
use mathlib.Core.Option.{Option, none, some}
use scamp_rs.Common.{Text, codes, same, if◌then◌else◌}

abbrev pub max_packet_size : ℕ
max_packet_size = 131072

abbrev pub data_chunk_size : ℕ
data_chunk_size = 2048

pub data PacketType : Type 0 where
  header data_chunk eof txerr ack ping pong : PacketType
