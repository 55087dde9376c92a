-- ===== src/Client/Sender.antt =====
-- client/connection.rs: `send_request` and `cleanup_request`, cut at its awaits, so that the requests
-- of a connection and its reader interleave.
pub mod Acks
pub mod Flow
pub mod Tame
pub mod Watermark
pub mod Asleep
use scamp_rs.Common.{
  ℕ, ◌+◌, Bool, true, false, Option, none, some, List, [], ◌∷◌, ◌++◌, Text, Bytes, codes, length,
  take, drop, ltb, leb, if◌then◌else◌,
}
use scamp_rs.Common.Maps.{Map, get, insert, remove, number_key}
use scamp_rs.Common.Words.{add_u64, saturating_sub}
use scamp_rs.Client.{ScampResponse, OutgoingState, Client, new_outgoing}
use scamp_rs.Client.Reader.{enqueue, route_packet, notify_all_pending}
use scamp_rs.Proto.{data_chunk_size}
use scamp_rs.Proto.Header.{PacketHeader, FlexInt}
use scamp_rs.Proto.Message.{header_packet, data_packet, eof_packet}
use scamp_rs.Proto.Packet.{Packet}

abbrev pub flow_control_watermark : ℕ
flow_control_watermark = 65536

-- How `send_request` ends.
pub data SendResult : Type 0 where
  response : ScampResponse → SendResult
  failed : Text → SendResult

-- Where a request stands: `checking` is the head of the loops, `sleeping` the wait for an
-- acknowledgement, `writing` has passed the watermark, `counting` has queued a chunk.
pub data Phase : Type 0 where
  opening checking sleeping writing counting ending awaiting : Phase
  finished : SendResult → Phase

-- A call of `send_request`. Its message number is its key among the calls of the connection, and its
-- one-shot channel is named by the request id.
pub record Request : Type 0 where
  pub header : PacketHeader
  pub body : Bytes
  pub offset : ℕ
  pub phase : Phase

-- A connection with the calls on it; `reading` says that the reader is in its loop.
pub record Connection : Type 0 where
  pub client : Client
  pub requests : Map ℕ Request
  pub reading : Bool

unfoldable pub cleanup_request : FlexInt → ℕ → Client → Client
cleanup_request id num s = record s {
  pending = remove id s.pending;
  outgoing = remove num s.outgoing;
}

-- A packet goes into the queue and the request to the next phase; if the writer is gone it fails.
unfoldable pub send_packet : Packet → Text → Phase → ℕ → Request → Client → Request × Client
unfolding cleanup_request enqueue
send_packet p error next num r s =
    if s.queue_open
    then (record r { phase = next }, enqueue p s)
    else (record r { phase = finished (failed error) }, cleanup_request r.header.request_id num s)

unfoldable pub over_watermark : ℕ → Client → Bool
over_watermark num s = elim (get num s.outgoing) [
  | none ↦ false
  | some state ↦ leb flow_control_watermark (saturating_sub state.sent state.acknowledged)
]

unfoldable pub check : ℕ → Request → Client → Request × Client
unfolding cleanup_request over_watermark
check num r s =
    if ltb r.offset (length r.body)
    then (if s.closed
        then (
          record r {
            phase = finished (failed (codes "Connection closed during flow control wait"));
          },
          cleanup_request r.header.request_id num s,
        )
        else (if over_watermark num s
            then (record r { phase = sleeping }, s)
            else (record r { phase = writing }, s)))
    else (record r { phase = ending }, s)

-- `body[offset..end]`.
abbrev pub next_chunk : Request → Bytes
next_chunk r = take data_chunk_size (drop r.offset r.body)

-- `s.sent += chunk_len` and `offset = end`.
unfoldable pub count : ℕ → Request → Client → Request × Client
count num r s =
    let len = length (next_chunk r) in
    (
      record r { offset = r.offset + len; phase = checking },
      elim (get num s.outgoing) [
        | none ↦ s
        | some state ↦ record s {
          outgoing = insert num (record state { sent = add_u64 state.sent len }) s.outgoing;
        }
      ],
    )

-- The response has come in, if one was delivered on the channel.
unfoldable pub receive : ℕ → Request → Client → Request × Client
receive num r s = elim (get r.header.request_id s.delivered) [
  | none ↦ (r, s)
  | some answer ↦ (
    record r { phase = finished (response answer) },
    record s { outgoing = remove num s.outgoing },
  )
]

-- A request goes on from where it stands to its next await.
unfoldable pub resume : Phase → ℕ → Request → Client → Request × Client
unfolding send_packet check count receive
resume opening num r s =
    send_packet (header_packet num r.header) (codes "Connection closed while sending header")
      checking num r s
resume checking num r s = check num r s
resume sleeping num r s =
    if s.permit then (record r { phase = checking }, record s { permit = false }) else (r, s)
resume writing num r s =
    send_packet (data_packet num (next_chunk r)) (codes "Connection closed while sending data")
      counting num r s
resume counting num r s = count num r s
resume ending num r s =
    send_packet (eof_packet num) (codes "Connection closed while sending EOF") awaiting num r s
resume awaiting num r s = receive num r s
resume (finished result) num r s = (r, s)

unfoldable pub progress : ℕ → Request → Client → Request × Client
unfolding resume
progress num r s = resume r.phase num r s

-- The time is up; it counts only for a request that awaits its response.
unfoldable pub expire : Phase → ℕ → Request → Client → Request × Client
unfolding cleanup_request
expire awaiting num r s = (
  record r { phase = finished (failed (codes "Request timed out")) },
  cleanup_request r.header.request_id num s,
)
expire _ num r s = (r, s)

unfoldable pub time_out : ℕ → Request → Client → Request × Client
unfolding expire
time_out num r s = expire r.phase num r s

-- A call begins: the two numbers are taken, the channel and the outgoing state are entered. The
-- header has the request id.
unfoldable pub begin : PacketHeader → Bytes → Connection → Connection
begin h body k =
    let s = k.client in
    let id = s.next_request_id in
    let num = s.next_outgoing_msg_no in
    if s.closed then k else record k {
      client = record s {
        next_request_id = add_u64 id 1;
        next_outgoing_msg_no = add_u64 num 1;
        pending = insert id id s.pending;
        outgoing = insert num new_outgoing s.outgoing;
      };
      requests =
          insert num
            (record {
              header = record h { request_id = id };
              body = body;
              offset = 0;
              phase = opening;
            })
            k.requests;
    }

-- What can happen on a connection: a call begins, a call goes on or runs out of time, the reader
-- routes a packet, leaves its loop or sets the flag `closed` behind it, the writer ends.
pub data Event : Type 0 where
  start : PacketHeader → Bytes → Event
  go_on late : ℕ → Event
  packet : Packet → Event
  reader_ends : Text → Event
  reader_closes writer_ends : Event

-- The call under `num` does `act`.
unfoldable pub for_request : (ℕ → Request → Client → Request × Client) → ℕ → Connection → Connection
for_request act num k = elim (get num k.requests) [
  | none ↦ k
  | some r ↦
      let after = act num r k.client in
      record k { client = after.1; requests = insert num after.0 k.requests }
]

unfoldable pub step : Event → Connection → Connection
unfolding begin for_request progress time_out route_packet notify_all_pending
step (start h body) k = begin h body k
step (go_on num) k = for_request progress num k
step (late num) k = for_request time_out num k
step (packet p) k = if k.reading then record k { client = (route_packet p k.client).0 } else k
step (reader_ends text) k =
    if k.reading then record k { client = notify_all_pending text k.client; reading = false } else k
step reader_closes k =
    if k.reading then k else record k { client = record (k.client) { closed = true } }
step writer_ends k = record k { client = record (k.client) { queue_open = false } }

unfoldable pub steps : List Event → Connection → Connection
steps [] k = k
steps (e ∷ es) k = steps es (step e k)

-- `ConnectionHandle::from_stream`.
abbrev pub from_stream : Connection
from_stream = record {
  client = record {
    incoming = [];
    next_incoming_msg_no = 0;
    pending = [];
    delivered = [];
    outgoing = [];
    queue = [];
    queue_open = true;
    permit = false;
    closed = false;
    next_request_id = 1;
    next_outgoing_msg_no = 0;
  };
  requests = [];
  reading = true;
}
