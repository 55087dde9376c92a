-- ===== src/Tests/Connections.antt =====
-- The theorems on the two sides of a connection, applied.
use scamp_rs.Client.{new_outgoing}
use scamp_rs.Client.{ScampResponse}
use scamp_rs.Client.Reader.{route_packet, enqueue, reader_task, chunk, read_error}
use scamp_rs.Client.Reader.Ending.{reader_task-answered}
use scamp_rs.Client.Reader.Response.{answered, feed_all-response}
use scamp_rs.Client.Sender.{
  Request, Connection, Event, start, go_on, late, steps, from_stream, checking, sleeping,
  flow_control_watermark, step, begin, for_request, progress, resume, send_packet,
}
use scamp_rs.Client.Sender.Acks.{IsAcked, route_packet-IsAcked}
use scamp_rs.Client.Sender.Asleep.{IsStuck, steps-IsStuck}
use scamp_rs.Client.Sender.Watermark.{from_stream-in_flight}
use scamp_rs.Common.{
  ◌+◌, ◌<◌, ◌≤◌, ◌≡◌, ◌⊎◌, refl, true, false, none, some, List, [], ◌∷◌, ◌++◌, append-nil, codes,
  arith, length,
}
use scamp_rs.Common.Maps.{get, insert, remove, number_key, text_key}
use scamp_rs.Proto.{data_chunk_size}
use scamp_rs.Proto.Message.{message, chunks_of}
use scamp_rs.Server.{Service, IncomingRequest, RegisteredAction, error_reply, ok_reply}
use scamp_rs.Server.Dispatch.{dispatch_and_reply, action_key, is_noauth, request_of}
use scamp_rs.Server.Dispatch.Denial.{IsPermitted, dispatch_and_reply-calls}
use scamp_rs.Server.Reply.{send_reply, reply_header}
use scamp_rs.Server.Reply.Packets.{open_writer, send_reply-message}
use scamp_rs.Server.Routing as Routing
use scamp_rs.Server.Routing.{ReadEvent, chunk, handle_connection, on_ack}
use scamp_rs.Server.Routing.Invariant.{IsValid}
use scamp_rs.Server.Routing.Reach.{handle_connection-IsValid}
use scamp_rs.Server.Routing.Lifecycle as Lifecycle
use scamp_rs.Server.Routing.Served.{feed_all-message}
use scamp_rs.Stream.{waiting, feed_all}
use scamp_rs.Stream.Delivery.{wire}
use scamp_rs.Stream.Invariant.{state_of}
use scamp_rs.Tests.{header, codec, body, data_sample, service, writer, server, client}
use scamp_rs.Tests.Wire.{header-IsHeader, wire-length}

feed_all-message_example :
    feed_all codec
      (Routing.route_packet service)
      (wire codec (message 0 header body) ∷ [])
      []
      server
    ≡ waiting
        (dispatch_and_reply service
          (record { header = header; body = body; received = 5 })
          (record server {
            next_incoming_msg_no = 1;
            writer = open_writer ([] ++ wire codec (Lifecycle.acks 0 0 (chunks_of body)));
          }))
        []
unfolding get
feed_all-message_example =
    feed_all-message service server header body (wire codec (message 0 header body) ∷ [])
      header-IsHeader (omega arith) refl refl (append-nil (wire codec (message 0 header body)))
      (wire-length, tt)

pending_request : get 1 client.pending ≡ some 1
unfolding get
pending_request = refl

feed_all-response_example :
    feed_all codec route_packet (wire codec (message 0 header body) ∷ []) [] client
    ≡ waiting (answered client header body 1) []
unfolding get
feed_all-response_example =
    feed_all-response codec client header body 1 (wire codec (message 0 header body) ∷ [])
      header-IsHeader (omega arith) refl refl pending_request
      (append-nil (wire codec (message 0 header body))) (wire-length, tt)

reader_task-answered_example :
    ((reader_task codec
        (λ e. codes "bad")
        (chunk (codes "ACK 0 1\r\n") ∷ (read_error ∷ []))
        client).pending
      ≡ [])
    × ((resp : ScampResponse) × (get 1
            (reader_task codec
              (λ e. codes "bad")
              (chunk (codes "ACK 0 1\r\n") ∷ (read_error ∷ []))
              client).delivered
          ≡ some resp))
reader_task-answered_example =
    reader_task-answered codec (λ e. codes "bad") (chunk (codes "ACK 0 1\r\n") ∷ []) read_error 1 1
      client tt pending_request

route_packet-IsAcked_example : IsAcked client.outgoing (route_packet data_sample client).0.outgoing
route_packet-IsAcked_example = route_packet-IsAcked data_sample client

handle_connection-IsValid_example :
    IsValid (state_of (handle_connection service (chunk (codes "PING 0 0\r\nEND\r\n") ∷ []) writer))
handle_connection-IsValid_example =
    handle_connection-IsValid service (chunk (codes "PING 0 0\r\nEND\r\n") ∷ []) writer

server-IsValid : IsValid server
server-IsValid = record {
  quiet = refl;
  counted = tt;
  incoming_fits = omega arith;
  outgoing_fits = omega arith;
}

send_reply-message_example :
    send_reply codec (error_reply (codes "gone") (codes "not_found")) 1 server ≡ record server {
      outgoing = remove 0 [];
      next_outgoing_msg_no = 1;
      writer = open_writer (
          []
          ++ wire codec
              (message 0 (reply_header (error_reply (codes "gone") (codes "not_found")) 1) []));
    }
send_reply-message_example =
    send_reply-message codec (error_reply (codes "gone") (codes "not_found")) 1 server refl

-- A message that has come in, and services to get it.
abbrev asked : IncomingRequest
asked = record { header = header; body = body; received = 5 }

-- A service that has the action, and answers with the request's body.
abbrev registered : Service
registered = record service {
  actions =
      (
        codes "api.status.v1",
        record {
          name = codes "api.status";
          version = 1;
          flags = [];
          handler = λ r. ok_reply r.body;
        },
      )
      ∷ [];
}

dispatch_and_reply-calls_example :
    ((dispatch_and_reply registered asked server).calls ≡ [])
    ⊎ ((a : RegisteredAction) × (get (action_key registered header) registered.actions ≡ some a)
        × ((dispatch_and_reply registered asked server).calls ≡ request_of asked ∷ [])
        × IsPermitted none (is_noauth registered header) header)
dispatch_and_reply-calls_example = dispatch_and_reply-calls registered asked server

-- A request that has been started and has queued its header.
abbrev run : List Event
run = start header body ∷ go_on 0 ∷ []

abbrev begun : Request
begun = record { header = header; body = body; offset = 0; phase = checking }

run-requests : get 0 (steps run from_stream).requests ≡ some begun
unfolding steps step begin for_request progress resume send_packet enqueue get insert remove
run-requests = refl

run-outgoing : get 0 (steps run from_stream).client.outgoing ≡ some new_outgoing
unfolding steps step begin for_request progress resume send_packet enqueue get insert remove
run-outgoing = refl

from_stream-in_flight_example :
    (new_outgoing.sent ≡ begun.offset)
    × (begun.offset ≤ length body)
    × (new_outgoing.acknowledged ≤ new_outgoing.sent)
    × (new_outgoing.sent < new_outgoing.acknowledged + flow_control_watermark + data_chunk_size)
from_stream-in_flight_example =
    from_stream-in_flight run 0 begun new_outgoing (omega arith, (tt, tt)) run-requests run-outgoing

-- A request that waits behind a reader that has ended.
abbrev waiting_request : Request
waiting_request = record begun { offset = 4; phase = sleeping }

abbrev lost : Connection
lost = record from_stream {
  client = record (from_stream.client) { closed = true };
  requests = (0, waiting_request) ∷ [];
  reading = false;
}

lost-IsStuck : IsStuck 0 waiting_request lost
unfolding get
lost-IsStuck = record { gone = refl; flagged = refl; no_permit = refl; waits = refl; asleep = refl }

steps-IsStuck_example : get 0 (steps (go_on 0 ∷ late 0 ∷ []) lost).requests ≡ some waiting_request
steps-IsStuck_example = steps-IsStuck (go_on 0 ∷ late 0 ∷ []) 0 waiting_request lost lost-IsStuck
