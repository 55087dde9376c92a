-- ===== src/Server/Routing.antt =====
-- server_connection.rs, `route_packet` and `handle_connection`.
pub mod Invariant
pub mod Reach
pub mod Lifecycle
pub mod Served
use scamp_rs.Common.{
  ℕ, ◌+◌, Bool, true, false, ◌||◌, not, Option, none, some, List, [], ◌∷◌, ◌++◌, Bytes, codes,
  length, is_empty, same, ltb, leb, ◌==◌, if◌then◌else◌,
}
use scamp_rs.Common.Maps.{Map, get, insert, remove, number_key}
use scamp_rs.Common.Words.{add_u64}
use scamp_rs.Proto.{PacketType, header, data_chunk, eof, txerr, ack, ping, pong}
use scamp_rs.Proto.Header.{PacketHeader}
use scamp_rs.Proto.Packet.{Packet, ParseError}
use scamp_rs.Proto.Packet.Write.{write, Writer}
use scamp_rs.Server.{Service, IncomingRequest, OutgoingReplyState, Connection}
use scamp_rs.Server.Dispatch.{dispatch_and_reply}
use scamp_rs.Stream.{Outcome, waiting, closed, failed, overflow, feed}
use scamp_rs.Strings.Decimal.{parse_u64, to_string}
use scamp_rs.Strings.Utf8.{from_utf8_lossy}

abbrev pub ack_packet : ℕ → ℕ → Packet
ack_packet num received = record {
  packet_type = ack;
  msg_no = num;
  packet_header = none;
  body = to_string received;
}

abbrev pub pong_packet : ℕ → Packet
pong_packet num = record { packet_type = pong; msg_no = num; packet_header = none; body = [] }

-- A packet goes to the writer; the connection goes on if it is taken. A failure to flush is logged.
unfoldable pub reply_with : Service → Packet → Connection → Connection × Bool
reply_with svc p s =
    let (w, written) = write svc.codec p s.writer in
    elim written [
      | none ↦ (record s { writer = w }, false)
      | some n ↦ (record s { writer = w }, true)
    ]

open_request : Option PacketHeader → ℕ → Connection → Connection
open_request none num s = s
open_request (some h) num s = record s {
  incoming = insert num (record { header = h; body = []; received = 0 }) s.incoming;
}

unfoldable pub on_header : Packet → Connection → Connection × Bool
unfolding open_request
on_header p s =
    if p.msg_no == s.next_incoming_msg_no
    then (
      open_request p.packet_header p.msg_no
          (record s { next_incoming_msg_no = add_u64 s.next_incoming_msg_no 1 }),
      true,
    )
    else (s, false)

abbrev pub extend : IncomingRequest → Bytes → IncomingRequest
extend msg bs = record msg { body = msg.body ++ bs; received = add_u64 msg.received (length bs) }

unfoldable pub on_data : Service → Packet → Connection → Connection × Bool
unfolding reply_with
on_data svc p s = elim (get p.msg_no s.incoming) [
  | none ↦ (s, true)
  | some msg ↦
      let msg' = extend msg p.body in
      reply_with svc (ack_packet p.msg_no msg'.received)
        (record s { incoming = insert p.msg_no msg' s.incoming })
]

unfoldable pub on_eof : Service → Packet → Connection → Connection × Bool
on_eof svc p s = if not (is_empty p.body) then (s, true) else elim (get p.msg_no s.incoming) [
  | none ↦ (s, true)
  | some msg ↦
      (dispatch_and_reply svc msg (record s { incoming = remove p.msg_no s.incoming }), true)
]

unfoldable pub on_txerr : Packet → Connection → Connection × Bool
on_txerr p s =
    let text = from_utf8_lossy p.body in
    if is_empty text || same text (codes "0")
    then (s, true)
    else (record s { incoming = remove p.msg_no s.incoming }, true)

-- The new state of an outgoing message, if the acknowledged count goes up and not past the end.
unfoldable pub acknowledge : ℕ → OutgoingReplyState → Option OutgoingReplyState
acknowledge v state =
    if leb v state.acknowledged
    then none
    else if ltb state.sent v
    then none
    else some (record state { acknowledged = v })

accept_ack : ℕ → ℕ → Connection → Connection
unfolding acknowledge
accept_ack num v s = elim (get num s.outgoing) [
  | none ↦ s
  | some state ↦ elim (acknowledge v state) [
    | none ↦ s
    | some state' ↦ record s { outgoing = insert num state' s.outgoing }
  ]
]

unfoldable pub on_ack : Packet → Connection → Connection × Bool
unfolding accept_ack
on_ack p s = elim (parse_u64 (from_utf8_lossy p.body)) [
  | none ↦ (s, true)
  | some v ↦ if v == 0 then (s, true) else (accept_ack p.msg_no v s, true)
]

dispatch_type : PacketType → Service → Packet → Connection → Connection × Bool
unfolding on_header on_data on_eof on_txerr on_ack reply_with
dispatch_type header svc p s = on_header p s
dispatch_type data_chunk svc p s = on_data svc p s
dispatch_type eof svc p s = on_eof svc p s
dispatch_type txerr svc p s = on_txerr p s
dispatch_type ack svc p s = on_ack p s
dispatch_type ping svc p s = reply_with svc (pong_packet p.msg_no) s
dispatch_type pong svc p s = (s, true)

-- `route_packet`: `false` closes the connection.
unfoldable pub route_packet : Service → Packet → Connection → Connection × Bool
unfolding dispatch_type
route_packet svc p s = dispatch_type p.packet_type svc p s

abbrev pub is_busy : Connection → Bool
is_busy s = not (is_empty s.incoming) || not (is_empty s.outgoing)

-- What a read comes to. An idle timeout is only waited for while the connection is not busy.
pub data ReadEvent : Type 0 where
  chunk : Bytes → ReadEvent
  end_of_stream read_error idle_timeout : ReadEvent

-- One round of the loop of `handle_connection`.
unfoldable pub on_read : Service → Connection → Bytes → ReadEvent → Outcome Connection
on_read svc s buf (chunk []) = closed s
on_read svc s buf (chunk (b ∷ bs)) = feed svc.codec (route_packet svc) buf s (b ∷ bs)
on_read svc s buf end_of_stream = closed s
on_read svc s buf read_error = closed s
on_read svc s buf idle_timeout = if is_busy s then waiting s buf else closed s

run : Service → List ReadEvent → Outcome Connection → Outcome Connection
run svc (e ∷ es) (waiting s buf) = run svc es (on_read svc s buf e)
run svc es o = o

-- The variables before the loop.
abbrev pub new_connection : Writer → Connection
new_connection w = record {
  incoming = [];
  outgoing = [];
  next_incoming_msg_no = 0;
  next_outgoing_msg_no = 0;
  writer = w;
  calls = [];
}

unfoldable pub handle_connection : Service → List ReadEvent → Writer → Outcome Connection
unfolding run
handle_connection svc es w = run svc es (waiting (new_connection w) [])
