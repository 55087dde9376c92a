-- ===== src/Server/Routing/Lifecycle.antt =====
-- server_connection.rs: a whole request, from its HEADER packet to the call of its handler.
use scamp_rs.Common.{
  ℕ, ◌%◌, ◌≡◌, refl, sym, ap, subst, ◌∙◌, true, none, List, [], ◌∷◌, ◌++◌, append_assoc, append-nil,
  map, Bytes, arith, length, length-append, joined, ==_refl,
}
use scamp_rs.Common.Maps.{
  get, insert, number_key, get-insert_self, insert-insert, remove-insert_absent,
}
use scamp_rs.Common.Words.{u64_mod, add_u64}
use scamp_rs.Proto.Header.{PacketHeader}
use scamp_rs.Proto.Message.{
  header_packet, data_packet, eof_packet, chunks_of, chunks_of_lem, message,
}
use scamp_rs.Proto.Packet.{Packet}
use scamp_rs.Proto.Packet.Write.{IsOpen, to_bytes}
use scamp_rs.Server.{Service, IncomingRequest, Connection}
use scamp_rs.Server.Dispatch.{dispatch_and_reply}
use scamp_rs.Server.Reply.Packets.{open_writer, write-IsOpen}
use scamp_rs.Server.Routing.{
  ack_packet, reply_with, on_header, on_data, on_eof, route_packet, extend,
}
use scamp_rs.Stream.Delivery.{wire}
use scamp_rs.Stream.Runs.{Runs, Runs-nil, Runs-cons, Runs-append}

-- The cumulative acknowledgements of the chunks of a message.
unfoldable pub acks : ℕ → ℕ → List Bytes → List Packet
acks num received [] = []
acks num received (c ∷ cs) =
    let total = add_u64 received (length c) in ack_packet num total ∷ acks num total cs

extend_all : IncomingRequest → List Bytes → IncomingRequest
extend_all msg [] = msg
extend_all msg (c ∷ cs) = extend_all (extend msg c) cs

-- The connection `s` while the message under its next number comes in; `bs` is on the wire.
abbrev receiving : Connection → IncomingRequest → Bytes → Connection
receiving s msg bs = record s {
  incoming = insert s.next_incoming_msg_no msg s.incoming;
  next_incoming_msg_no = add_u64 s.next_incoming_msg_no 1;
  writer = open_writer bs;
}

reply_with-IsOpen :
    (svc : Service) (p : Packet) (s : Connection)
    → IsOpen s.writer
    → reply_with svc p s
      ≡ (record s { writer = open_writer (s.writer.sent ++ to_bytes svc.codec p) }, true)
unfolding reply_with
reply_with-IsOpen svc p s h =
    let e = write-IsOpen svc.codec p s.writer h in rw (e, reply_with) (rw e refl)

module _ (svc : Service) (s : Connection) where
  header_step :
      (h : PacketHeader)
      → IsOpen s.writer
      → route_packet svc (header_packet s.next_incoming_msg_no h) s
        ≡ (receiving s (record { header = h; body = []; received = 0 }) s.writer.sent, true)
  unfolding route_packet on_header
  header_step h o = rw (==_refl s.next_incoming_msg_no) (λ i. (
    record s {
      incoming =
          insert s.next_incoming_msg_no (record { header = h; body = []; received = 0 }) s.incoming;
      next_incoming_msg_no = add_u64 s.next_incoming_msg_no 1;
      writer = record { sent = s.writer.sent; outcomes = o i };
    },
    true,
  ))

  data_step :
      (msg : IncomingRequest) (bs chunk : Bytes)
      → route_packet svc (data_packet s.next_incoming_msg_no chunk) (receiving s msg bs) ≡ (
        receiving s (extend msg chunk) (
            bs
            ++ to_bytes svc.codec
                (ack_packet s.next_incoming_msg_no (add_u64 msg.received (length chunk)))),
        true,
      )
  unfolding route_packet on_data
  data_step msg bs chunk =
      let num = s.next_incoming_msg_no in
      let sent = bs ++ to_bytes svc.codec (ack_packet num (add_u64 msg.received (length chunk))) in
      rw (get-insert_self num msg s.incoming, on_data)
        (reply_with-IsOpen svc _ _ refl
          ∙ ap
              (λ m. (
                record s {
                  incoming = m;
                  next_incoming_msg_no = add_u64 num 1;
                  writer = open_writer sent;
                },
                true,
              ))
              (insert-insert num msg (extend msg chunk) s.incoming))

  data_steps :
      (cs : List Bytes) (msg : IncomingRequest) (bs : Bytes)
      → Runs svc.codec
          (route_packet svc)
          (map (data_packet s.next_incoming_msg_no) cs)
          (receiving s msg bs)
          (receiving s
            (extend_all msg cs)
            (bs ++ wire svc.codec (acks s.next_incoming_msg_no msg.received cs)))
  unfolding acks extend_all wire
  data_steps [] msg bs =
      subst (λ t. Runs svc.codec (route_packet svc) [] (receiving s msg bs) (receiving s msg t))
        (sym (append-nil bs)) (Runs-nil svc.codec (route_packet svc) _)
  data_steps (c ∷ cs) msg bs =
      let num = s.next_incoming_msg_no in
      let ack = to_bytes svc.codec (ack_packet num (add_u64 msg.received (length c))) in
      let acks_later = wire svc.codec (acks num (add_u64 msg.received (length c)) cs) in
      Runs-cons svc.codec (route_packet svc) (data_packet num c) (map (data_packet num) cs) _ _ _
        (data_step msg bs c)
        (subst
          (λ t.
            Runs svc.codec (route_packet svc) (map (data_packet num) cs)
              (receiving s (extend msg c) (bs ++ ack))
              (receiving s (extend_all (extend msg c) cs) t))
          (append_assoc bs ack acks_later) (data_steps cs (extend msg c) (bs ++ ack)))

  eof_step :
      (msg : IncomingRequest) (bs : Bytes)
      → get s.next_incoming_msg_no s.incoming ≡ none
      → route_packet svc (eof_packet s.next_incoming_msg_no) (receiving s msg bs) ≡ (
        dispatch_and_reply svc msg (record s {
          next_incoming_msg_no = add_u64 s.next_incoming_msg_no 1;
          writer = open_writer bs;
        }),
        true,
      )
  unfolding route_packet on_eof
  eof_step msg bs fresh =
      let num = s.next_incoming_msg_no in
      rw (get-insert_self num msg s.incoming, on_eof)
        (ap
          (λ m. (
            dispatch_and_reply svc msg (record s {
              incoming = m;
              next_incoming_msg_no = add_u64 num 1;
              writer = open_writer bs;
            }),
            true,
          ))
          (remove-insert_absent num msg s.incoming fresh))

-- What has come in after the chunks `cs`.
extend_all_lem :
    (msg : IncomingRequest) (cs : List Bytes)
    → msg.received ≡ length msg.body % u64_mod
    → extend_all msg cs ≡ record {
      header = msg.header;
      body = msg.body ++ joined cs;
      received = length (msg.body ++ joined cs) % u64_mod;
    }
unfolding extend_all
extend_all_lem msg [] h = ground (arith, append-nil msg.body, h)
extend_all_lem msg (c ∷ cs) h =
    extend_all_lem (extend msg c) cs (omega (arith, h, length-append msg.body c))
    ∙ ap (λ (b : Bytes). record { header = msg.header; body = b; received = length b % u64_mod })
        (append_assoc msg.body c (joined cs))

-- The packets of a message under the connection's next number lead to the dispatch of exactly the
-- message: its header and its whole body, with one cumulative acknowledgement on the wire for each
-- chunk, and nothing left of it among the incoming messages. The writer takes everything, and no
-- message under that number is open.
pub message-Runs :
    (svc : Service) (s : Connection) (h : PacketHeader) (body : Bytes)
    → IsOpen s.writer
    → get s.next_incoming_msg_no s.incoming ≡ none
    → Runs svc.codec (route_packet svc) (message s.next_incoming_msg_no h body) s (
        dispatch_and_reply svc
          (record { header = h; body = body; received = length body % u64_mod })
          (record s {
            next_incoming_msg_no = add_u64 s.next_incoming_msg_no 1;
            writer =
                open_writer (
                  s.writer.sent ++ wire svc.codec (acks s.next_incoming_msg_no 0 (chunks_of body)));
          }))
message-Runs svc s h body o fresh =
    let num = s.next_incoming_msg_no in
    let first : IncomingRequest = record { header = h; body = []; received = 0 } in
    let bytes = s.writer.sent ++ wire svc.codec (acks num 0 (chunks_of body)) in
    let whole : extend_all first (chunks_of body)
        ≡ record { header = h; body = body; received = length body % u64_mod } =
      extend_all_lem first (chunks_of body) (omega arith)
      ∙ ap (λ (b : Bytes). record { header = h; body = b; received = length b % u64_mod })
          (chunks_of_lem body).0 in
    Runs-cons svc.codec (route_packet svc) (header_packet num h) _ s _ _ (header_step svc s h o) (
      Runs-append svc.codec (route_packet svc) (map (data_packet num) (chunks_of body))
        (eof_packet num ∷ []) _ _ _
        (subst
          (λ m.
            Runs svc.codec (route_packet svc) (map (data_packet num) (chunks_of body))
              (receiving s first s.writer.sent) (receiving s m bytes))
          whole (data_steps svc s (chunks_of body) first s.writer.sent))
        (Runs-cons svc.codec (route_packet svc) (eof_packet num) [] _ _ _
          (eof_step svc s _ bytes fresh) (Runs-nil svc.codec (route_packet svc) _)))
