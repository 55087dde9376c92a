-- ===== src/Client/Reader.antt =====
-- client/reader.rs: `route_packet`, `notify_all_pending` and `reader_task`.
pub mod Owed
pub mod Ending
pub mod Response
use scamp_rs.Common.{
  ℕ, ◌+◌, Bool, true, false, ◌||◌, not, Option, none, some, List, [], ◌∷◌, ◌++◌, Text, Bytes, codes,
  length, is_empty, same, ltb, leb, ◌==◌, if◌then◌else◌,
}
use scamp_rs.Common.Maps.{Map, get, insert, remove, number_key}
use scamp_rs.Common.Words.{add_u64}
use scamp_rs.Client.{ScampResponse, IncomingMessage, OutgoingState, Client}
use scamp_rs.Proto.{PacketType, header, data_chunk, eof, txerr, ack, ping, pong}
use scamp_rs.Proto.Header.{PacketHeader, default_header}
use scamp_rs.Proto.Packet.{Packet, Codec, ParseError}
use scamp_rs.Stream.{Outcome, waiting, closed, failed, overflow, feed}
use scamp_rs.Strings.Decimal.{parse_u64, to_string}
use scamp_rs.Strings.Utf8.{from_utf8_lossy}

-- `let _ = writer_tx.send(p).await`: a closed channel drops the packet.
unfoldable pub enqueue : Packet → Client → Client
enqueue p s = if s.queue_open then record s { queue = s.queue ++ p ∷ [] } else s

-- `let _ = tx.send(response)`, if a request with that id is pending.
unfoldable pub deliver : IncomingMessage → Option Text → Client → Client
deliver msg error s = elim (get msg.header.request_id s.pending) [
  | none ↦ s
  | some tx ↦ record s {
    pending = remove msg.header.request_id s.pending;
    delivered = (tx, record { header = msg.header; body = msg.body; error = error }) ∷ s.delivered;
  }
]

unfoldable pub open_message : Option PacketHeader → ℕ → Client → Client
open_message none num s = s
open_message (some h) num s = record s {
  incoming = insert num (record { header = h; body = []; received = 0 }) s.incoming;
}

unfoldable pub on_header : Packet → Client → Client
unfolding open_message
on_header p s =
    if p.msg_no == s.next_incoming_msg_no
    then open_message p.packet_header p.msg_no
        (record s { next_incoming_msg_no = add_u64 s.next_incoming_msg_no 1 })
    else s

abbrev pub extend : IncomingMessage → Bytes → IncomingMessage
extend msg bs = record msg { body = msg.body ++ bs; received = add_u64 msg.received (length bs) }

abbrev pub ack_packet : ℕ → ℕ → Packet
ack_packet num received = record {
  packet_type = ack;
  msg_no = num;
  packet_header = none;
  body = to_string received;
}

unfoldable pub on_data : Packet → Client → Client
on_data p s = elim (get p.msg_no s.incoming) [
  | none ↦ s
  | some msg ↦
      let msg' = extend msg p.body in
      if is_empty p.body
      then s
      else enqueue (ack_packet p.msg_no msg'.received)
          (record s { incoming = insert p.msg_no msg' s.incoming })
]

-- The message under `num` ends, with the error text of a TXERR.
unfoldable pub finish_message : ℕ → Option Text → Client → Client
unfolding deliver
finish_message num error s = elim (get num s.incoming) [
  | none ↦ s
  | some msg ↦ deliver msg error (record s { incoming = remove num s.incoming })
]

unfoldable pub on_eof : Packet → Client → Client
on_eof p s = if not (is_empty p.body) then s else finish_message p.msg_no none s

unfoldable pub on_txerr : Packet → Client → Client
on_txerr p s =
    let text = from_utf8_lossy p.body in
    if is_empty text || same text (codes "0") then s else finish_message p.msg_no (some text) s

-- The new state of an outgoing message, if the acknowledged count goes up and not past the end.
unfoldable pub acknowledge : ℕ → OutgoingState → Option OutgoingState
acknowledge v state =
    if leb v state.acknowledged
    then none
    else if ltb state.sent v
    then none
    else some (record state { acknowledged = v })

unfoldable pub accept_ack : ℕ → ℕ → Client → Client
accept_ack num v s = elim (get num s.outgoing) [
  | none ↦ s
  | some state ↦ elim (acknowledge v state) [
    | none ↦ s
    | some state' ↦ record s { outgoing = insert num state' s.outgoing; permit = true }
  ]
]

unfoldable pub on_ack : Packet → Client → Client
unfolding accept_ack
on_ack p s = elim (parse_u64 (from_utf8_lossy p.body)) [
  | none ↦ s
  | some v ↦ if v == 0 then s else accept_ack p.msg_no v s
]

abbrev pub pong_packet : ℕ → Packet
pong_packet num = record { packet_type = pong; msg_no = num; packet_header = none; body = [] }

unfoldable pub route_as : PacketType → Packet → Client → Client
route_as header p s = on_header p s
route_as data_chunk p s = on_data p s
route_as eof p s = on_eof p s
route_as txerr p s = on_txerr p s
route_as ack p s = on_ack p s
route_as ping p s = enqueue (pong_packet p.msg_no) s
route_as pong p s = s

-- `route_packet` never ends the loop.
unfoldable pub route_packet : Packet → Client → Client × Bool
unfolding route_as
route_packet p s = (route_as p.packet_type p s, true)

abbrev pub error_response : Text → ScampResponse
error_response text = record { header = default_header; body = []; error = some text }

unfoldable pub fail_each : Text → List (ℕ × ℕ) → List (ℕ × ScampResponse) → List (ℕ × ScampResponse)
fail_each text [] done = done
fail_each text ((id, tx) ∷ rest) done = fail_each text rest ((tx, error_response text) ∷ done)

-- `notify_all_pending`: every pending request gets the error, and none is left.
unfoldable pub notify_all_pending : Text → Client → Client
unfolding fail_each
notify_all_pending text s = record s {
  pending = [];
  delivered = fail_each text s.pending s.delivered;
}

-- What a read comes to.
pub data ReadEvent : Type 0 where
  chunk : Bytes → ReadEvent
  end_of_stream read_error : ReadEvent

-- One round of the loop of `reader_task`; the codec is the connection's.
unfoldable pub on_read : Codec → Client → Bytes → ReadEvent → Outcome Client
on_read c s buf (chunk []) = closed s
on_read c s buf (chunk (b ∷ bs)) = feed c route_packet buf s (b ∷ bs)
on_read c s buf end_of_stream = closed s
on_read c s buf read_error = closed s

-- Behind the loop the reader fails what is pending, with the error's text or "Connection lost". A
-- loop that still waits goes on.
unfoldable pub end_reader : (ParseError → Text) → Outcome Client → Client
unfolding notify_all_pending
end_reader describe (waiting s buf) = s
end_reader describe (closed s) = notify_all_pending (codes "Connection lost") s
end_reader describe (overflow s) = notify_all_pending (codes "Connection lost") s
end_reader describe (failed s e) = notify_all_pending (codes "Protocol error: " ++ describe e) s

unfoldable pub run : Codec → List ReadEvent → Outcome Client → Outcome Client
unfolding on_read
run c [] o = o
run c (e ∷ es) (waiting s buf) = run c es (on_read c s buf e)
run c (e ∷ es) o = o

-- `reader_task`, as far as the reads `events` take it.
unfoldable pub reader_task : Codec → (ParseError → Text) → List ReadEvent → Client → Client
unfolding run end_reader
reader_task c describe events s = end_reader describe (run c events (waiting s []))
