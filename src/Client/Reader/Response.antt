-- ===== src/Client/Reader/Response.antt =====
-- client/reader.rs: a whole response, from its HEADER packet to the request that waits for it.
use scamp_rs.Common.{
  ℕ, ◌%◌, ◌≤◌, ◌<◌, ◌≡◌, refl, sym, ap, subst, ◌∙◌, true, none, some, List, [], ◌∷◌, ◌++◌,
  append_assoc, append-nil, map, Bytes, arith, length, length-append, joined, All, ==_refl,
}
use scamp_rs.Common.Maps.{
  get, insert, remove, number_key, get-insert_self, insert-insert, remove-insert_absent,
}
use scamp_rs.Common.Words.{u64_mod, add_u64}
use scamp_rs.Proto.Header.{PacketHeader}
use scamp_rs.Proto.Message.{
  header_packet, data_packet, eof_packet, chunks_of, chunks_of_lem, message, IsChunk,
}
use scamp_rs.Proto.Packet.{Packet, Codec}
use scamp_rs.Client.{IncomingMessage, Client}
use scamp_rs.Client.Reader.{
  enqueue, deliver, ack_packet, on_header, on_data, on_eof, finish_message, route_packet, extend,
}
use scamp_rs.Stream.{waiting, feed_all}
use scamp_rs.Stream.Chunks.{read_size, feed_all-route_all}
use scamp_rs.Stream.Delivery.{wire}
use scamp_rs.Stream.Message.{
  IsHeader, deliverable-IsSendable, deliverable-IsRoomy, message-IsDeliverable,
}
use scamp_rs.Stream.Runs.{Runs, Runs-nil, Runs-cons, Runs-append}

-- The cumulative acknowledgements of the chunks of a message.
unfoldable pub acks : ℕ → ℕ → List Bytes → List Packet
acks num received [] = []
acks num received (c ∷ cs) =
    let total = add_u64 received (length c) in ack_packet num total ∷ acks num total cs

extend_all : IncomingMessage → List Bytes → IncomingMessage
extend_all msg [] = msg
extend_all msg (c ∷ cs) = extend_all (extend msg c) cs

-- The client `s` while the message under its next number comes in; `sent` is queued.
abbrev receiving : Client → IncomingMessage → List Packet → Client
receiving s msg sent = record s {
  incoming = insert s.next_incoming_msg_no msg s.incoming;
  next_incoming_msg_no = add_u64 s.next_incoming_msg_no 1;
  queue = sent;
}

enqueue-open :
    (p : Packet) (s : Client)
    → s.queue_open ≡ true
    → enqueue p s ≡ record s { queue = s.queue ++ p ∷ [] }
unfolding enqueue
enqueue-open p s o = rw o refl

module _ (c : Codec) (s : Client) (o : s.queue_open ≡ true) where
  header_step :
      (h : PacketHeader)
      → route_packet (header_packet s.next_incoming_msg_no h) s
        ≡ (receiving s (record { header = h; body = []; received = 0 }) s.queue, true)
  unfolding route_packet on_header
  header_step h = rw (==_refl s.next_incoming_msg_no) refl

  data_step :
      (msg : IncomingMessage) (sent : List Packet) (chunk : Bytes)
      → IsChunk chunk
      → route_packet (data_packet s.next_incoming_msg_no chunk) (receiving s msg sent) ≡ (
        receiving s
            (extend msg chunk)
            (sent ++ ack_packet s.next_incoming_msg_no (add_u64 msg.received (length chunk)) ∷ []),
        true,
      )
  unfolding route_packet on_data
  data_step msg sent [] k = absurd (omega (arith, k.0))
  data_step msg sent (b ∷ bs) k =
      let num = s.next_incoming_msg_no in
      let chunk : Bytes = b ∷ bs in
      let queued = sent ++ ack_packet num (add_u64 msg.received (length chunk)) ∷ [] in
      rw (get-insert_self num msg s.incoming, on_data)
        (ap (λ t. (t, true)) (enqueue-open _ _ o)
          ∙ ap
              (λ m. (
                record s { incoming = m; next_incoming_msg_no = add_u64 num 1; queue = queued },
                true,
              ))
              (insert-insert num msg (extend msg chunk) s.incoming))

  data_steps :
      (cs : List Bytes) (msg : IncomingMessage) (sent : List Packet)
      → All IsChunk cs
      → Runs c route_packet
          (map (data_packet s.next_incoming_msg_no) cs)
          (receiving s msg sent)
          (receiving s (extend_all msg cs) (sent ++ acks s.next_incoming_msg_no msg.received cs))
  unfolding acks extend_all
  data_steps [] msg sent k =
      subst (λ t. Runs c route_packet [] (receiving s msg sent) (receiving s msg t))
        (sym (append-nil sent)) (Runs-nil c route_packet _)
  data_steps (b ∷ cs) msg sent k =
      let num = s.next_incoming_msg_no in
      let total = add_u64 msg.received (length b) in
      Runs-cons c route_packet (data_packet num b) (map (data_packet num) cs) _ _ _
        (data_step msg sent b k.0)
        (subst
          (λ t.
            Runs c route_packet (map (data_packet num) cs)
              (receiving s (extend msg b) (sent ++ ack_packet num total ∷ []))
              (receiving s (extend_all (extend msg b) cs) t))
          (append_assoc sent (ack_packet num total ∷ []) (acks num total cs))
          (data_steps cs (extend msg b) (sent ++ ack_packet num total ∷ []) k.1))

  eof_step :
      (msg : IncomingMessage) (sent : List Packet) (tx : ℕ)
      → get s.next_incoming_msg_no s.incoming ≡ none
      → get msg.header.request_id s.pending ≡ some tx
      → route_packet (eof_packet s.next_incoming_msg_no) (receiving s msg sent) ≡ (
        record s {
          next_incoming_msg_no = add_u64 s.next_incoming_msg_no 1;
          pending = remove msg.header.request_id s.pending;
          delivered =
              (tx, record { header = msg.header; body = msg.body; error = none }) ∷ s.delivered;
          queue = sent;
        },
        true,
      )
  unfolding route_packet on_eof finish_message deliver
  eof_step msg sent tx fresh waits =
      let num = s.next_incoming_msg_no in
      rw (get-insert_self num msg s.incoming, finish_message)
        (rw (waits, deliver)
          (ap
            (λ m. (
              record s {
                incoming = m;
                next_incoming_msg_no = add_u64 num 1;
                pending = remove msg.header.request_id s.pending;
                delivered =
                    (tx, record { header = msg.header; body = msg.body; error = none })
                    ∷ s.delivered;
                queue = sent;
              },
              true,
            ))
            (remove-insert_absent num msg s.incoming fresh)))

-- What has come in after the chunks `cs`.
extend_all_lem :
    (msg : IncomingMessage) (cs : List Bytes)
    → msg.received ≡ length msg.body % u64_mod
    → extend_all msg cs ≡ record {
      header = msg.header;
      body = msg.body ++ joined cs;
      received = length (msg.body ++ joined cs) % u64_mod;
    }
unfolding extend_all
extend_all_lem msg [] h = ground (arith, append-nil msg.body, h)
extend_all_lem msg (c ∷ cs) h =
    extend_all_lem (extend msg c) cs (omega (arith, h, length-append msg.body c))
    ∙ ap (λ (b : Bytes). record { header = msg.header; body = b; received = length b % u64_mod })
        (append_assoc msg.body c (joined cs))

-- The client after the response `h`, `body` has come in for the request that waits on `tx`.
abbrev pub answered : Client → PacketHeader → Bytes → ℕ → Client
answered s h body tx = record s {
  next_incoming_msg_no = add_u64 s.next_incoming_msg_no 1;
  pending = remove h.request_id s.pending;
  delivered = (tx, record { header = h; body = body; error = none }) ∷ s.delivered;
  queue = s.queue ++ acks s.next_incoming_msg_no 0 (chunks_of body);
}

response-Runs :
    (c : Codec) (s : Client) (h : PacketHeader) (body : Bytes) (tx : ℕ)
    → s.queue_open ≡ true
    → get s.next_incoming_msg_no s.incoming ≡ none
    → get h.request_id s.pending ≡ some tx
    → Runs c route_packet (message s.next_incoming_msg_no h body) s (answered s h body tx)
response-Runs c s h body tx o fresh waits =
    let num = s.next_incoming_msg_no in
    let first : IncomingMessage = record { header = h; body = []; received = 0 } in
    let sent = s.queue ++ acks num 0 (chunks_of body) in
    let whole : extend_all first (chunks_of body)
        ≡ record { header = h; body = body; received = length body % u64_mod } =
      extend_all_lem first (chunks_of body) (omega arith)
      ∙ ap (λ (b : Bytes). record { header = h; body = b; received = length b % u64_mod })
          (chunks_of_lem body).0 in
    Runs-cons c route_packet (header_packet num h) _ s _ _ (header_step c s o h) (
      Runs-append c route_packet (map (data_packet num) (chunks_of body)) (eof_packet num ∷ []) _ _
        _
        (subst
          (λ m.
            Runs c route_packet (map (data_packet num) (chunks_of body)) (receiving s first s.queue)
              (receiving s m sent))
          whole (data_steps c s o (chunks_of body) first s.queue (chunks_of_lem body).1))
        (Runs-cons c route_packet (eof_packet num) [] _ _ _ (eof_step c s o _ sent tx fresh waits)
          (Runs-nil c route_packet _)))

-- A response that a service writes under the client's next message number is delivered once, to the
-- request whose id its header has, with the header and the whole body that were sent and no error,
-- however the stream is cut into reads of at most 4096 bytes; the request is no longer pending, one
-- cumulative acknowledgement is queued for each chunk, and the buffer is empty. The header is one
-- that JSON's text form keeps, and short enough for the read buffer; no message under that number is
-- open, the request is pending, and the writer's queue is open.
pub feed_all-response :
    (c : Codec) (s : Client) (h : PacketHeader) (body : Bytes) (tx : ℕ) (cuts : List Bytes)
    → IsHeader c h
    → s.next_incoming_msg_no < u64_mod
    → s.queue_open ≡ true
    → get s.next_incoming_msg_no s.incoming ≡ none
    → get h.request_id s.pending ≡ some tx
    → joined cuts ≡ wire c (message s.next_incoming_msg_no h body)
    → All (λ b. length b ≤ read_size) cuts
    → feed_all c route_packet cuts [] s ≡ waiting (answered s h body tx) []
feed_all-response c s h body tx cuts header fits o fresh waits e reads =
    let ps = message s.next_incoming_msg_no h body in
    let ok = message-IsDeliverable c s.next_incoming_msg_no fits h body header in
    let runs = response-Runs c s h body tx o fresh waits in
    feed_all-route_all c route_packet cuts ps s e (deliverable-IsSendable c ps ok)
      (deliverable-IsRoomy c ps ok) reads runs.1
    ∙ ap (λ t. waiting t []) runs.0
