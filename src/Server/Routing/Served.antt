-- ===== src/Server/Routing/Served.antt =====
-- server_connection.rs: a request as bytes on the stream.
use scamp_rs.Common.{◌%◌, ◌≤◌, ◌<◌, ◌≡◌, ap, ◌∙◌, none, List, [], ◌++◌, Bytes, length, All, joined}
use scamp_rs.Common.Maps.{get, number_key}
use scamp_rs.Common.Words.{u64_mod, add_u64}
use scamp_rs.Proto.Header.{PacketHeader}
use scamp_rs.Proto.Message.{chunks_of, message}
use scamp_rs.Proto.Packet.Write.{IsOpen}
use scamp_rs.Server.{Service, Connection}
use scamp_rs.Server.Dispatch.{dispatch_and_reply}
use scamp_rs.Server.Reply.Packets.{open_writer}
use scamp_rs.Server.Routing.{route_packet}
use scamp_rs.Server.Routing.Lifecycle.{acks, message-Runs}
use scamp_rs.Stream.{waiting, feed_all}
use scamp_rs.Stream.Chunks.{read_size, feed_all-route_all}
use scamp_rs.Stream.Delivery.{wire}
use scamp_rs.Stream.Message.{
  IsHeader, deliverable-IsSendable, deliverable-IsRoomy, message-IsDeliverable,
}

-- A request that a client writes under the connection's next message number reaches
-- `dispatch_and_reply` with the header and the body that were sent, however the stream is cut into
-- reads of at most 4096 bytes; the buffer is empty then and the connection waits for more. The
-- header is one that JSON's text form keeps, and short enough for the read buffer; no message under
-- that number is open, and the writer takes everything.
pub feed_all-message :
    (svc : Service) (s : Connection) (h : PacketHeader) (body : Bytes) (cuts : List Bytes)
    → IsHeader svc.codec h
    → s.next_incoming_msg_no < u64_mod
    → IsOpen s.writer
    → get s.next_incoming_msg_no s.incoming ≡ none
    → joined cuts ≡ wire svc.codec (message s.next_incoming_msg_no h body)
    → All (λ b. length b ≤ read_size) cuts
    → feed_all svc.codec (route_packet svc) cuts [] s
      ≡ waiting
          (dispatch_and_reply svc
            (record { header = h; body = body; received = length body % u64_mod })
            (record s {
              next_incoming_msg_no = add_u64 s.next_incoming_msg_no 1;
              writer = open_writer (
                  s.writer.sent ++ wire svc.codec (acks s.next_incoming_msg_no 0 (chunks_of body)));
            }))
          []
feed_all-message svc s h body cuts header fits o fresh e reads =
    let ps = message s.next_incoming_msg_no h body in
    let ok = message-IsDeliverable svc.codec s.next_incoming_msg_no fits h body header in
    let runs = message-Runs svc s h body o fresh in
    feed_all-route_all svc.codec (route_packet svc) cuts ps s e
      (deliverable-IsSendable svc.codec ps ok) (deliverable-IsRoomy svc.codec ps ok) reads runs.1
    ∙ ap (λ t. waiting t []) runs.0
