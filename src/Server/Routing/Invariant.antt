-- ===== src/Server/Routing/Invariant.antt =====
-- server_connection.rs: what every packet keeps.
use scamp_rs.Common.{
  ℕ, ◌%◌, ◌<◌, ◌≡◌, sym, ap, subst, ◌∙◌, inl, inr, true, ◌||◌, Option, none, some, [], Bytes, codes,
  arith, length, length-append, is_empty, same, ◌==◌, Bool-cases, Option-cases,
}
use scamp_rs.Common.Maps.{
  Map, get, remove, number_key, Entries, Entries-get, Entries-insert, Entries-remove,
}
use scamp_rs.Common.Words.{u64_mod}
use scamp_rs.Proto.{PacketType, header, data_chunk, eof, txerr, ack, ping, pong}
use scamp_rs.Proto.Header.{PacketHeader, FlexInt}
use scamp_rs.Proto.Packet.{Packet, Codec}
use scamp_rs.Proto.Packet.Write.{write, Writer}
use scamp_rs.Server.{
  Service, ScampReply, RegisteredAction, IncomingRequest, OutgoingReplyState, Connection,
}
use scamp_rs.Server.Dispatch.{is_noauth, refuse, invoke, dispatch_and_reply}
use scamp_rs.Server.Reply.{send_reply}
use scamp_rs.Server.Reply.Packets.{send_reply-outgoing, send_reply-keeps}
use scamp_rs.Server.Routing.{
  reply_with, on_header, on_data, on_eof, on_txerr, on_ack, route_packet, extend, open_request,
  accept_ack, dispatch_type,
}
use scamp_rs.Strings.Decimal.{parse_u64}
use scamp_rs.Strings.Utf8.{from_utf8_lossy}

-- The count of a message is the length of its body, as far as a `usize` tells.
abbrev pub IsCounted : ℕ → IncomingRequest → Type 0
IsCounted num msg = msg.received ≡ length msg.body % u64_mod

-- Between two packets no reply is under way, every incoming message is counted, and the numbers of
-- the connection fit a `u64`.
pub record IsValid (s : Connection) : Type 0 where
  pub quiet : s.outgoing ≡ []
  pub counted : Entries IsCounted s.incoming
  pub incoming_fits : s.next_incoming_msg_no < u64_mod
  pub outgoing_fits : s.next_outgoing_msg_no < u64_mod

remove-nil : (num : ℕ) (out : Map ℕ OutgoingReplyState) → out ≡ [] → remove num out ≡ []
unfolding remove
remove-nil num out e = rw e

send_reply-IsValid :
    (c : Codec) (r : ScampReply) (request_id : FlexInt) (s : Connection)
    → IsValid s
    → IsValid (send_reply c r request_id s)
send_reply-IsValid c r request_id s v =
    let keeps = send_reply-keeps c r request_id s in
    record {
      quiet =
          send_reply-outgoing c r request_id s
          ∙ remove-nil s.next_outgoing_msg_no s.outgoing v.quiet;
      counted = subst (Entries IsCounted) (sym keeps.1) v.counted;
      incoming_fits = omega (arith, keeps.2, v.incoming_fits);
      outgoing_fits = omega (arith, keeps.3);
    }

invoke-IsValid :
    (svc : Service) (msg : IncomingRequest) (found : Option RegisteredAction) (s : Connection)
    → IsValid s
    → IsValid (invoke svc msg found s)
unfolding invoke
invoke-IsValid svc msg none s v = send_reply-IsValid svc.codec _ msg.header.request_id s v
invoke-IsValid svc msg (some a) s v =
    send_reply-IsValid svc.codec _ msg.header.request_id _ (record {
      quiet = v.quiet;
      counted = v.counted;
      incoming_fits = v.incoming_fits;
      outgoing_fits = v.outgoing_fits;
    })

dispatch_and_reply-IsValid :
    (svc : Service) (msg : IncomingRequest) (s : Connection)
    → IsValid s
    → IsValid (dispatch_and_reply svc msg s)
unfolding dispatch_and_reply
dispatch_and_reply-IsValid svc msg s v =
    elim (Option-cases (refuse svc.authz (is_noauth svc msg.header) msg.header)) [
      | inl free ↦ rw (free, dispatch_and_reply) (invoke-IsValid svc msg _ s v)
      | inr (r, refused) ↦
          rw (refused, dispatch_and_reply)
            (send_reply-IsValid svc.codec r msg.header.request_id s v)
    ]

-- A change of the writer or of the incoming messages.
set_writer-IsValid : (w : Writer) (s : Connection) → IsValid s → IsValid (record s { writer = w })
set_writer-IsValid w s v = record {
  quiet = v.quiet;
  counted = v.counted;
  incoming_fits = v.incoming_fits;
  outgoing_fits = v.outgoing_fits;
}

set_incoming-IsValid :
    (m : Map ℕ IncomingRequest) (s : Connection)
    → Entries IsCounted m
    → IsValid s
    → IsValid (record s { incoming = m })
set_incoming-IsValid m s h v = record {
  quiet = v.quiet;
  counted = h;
  incoming_fits = v.incoming_fits;
  outgoing_fits = v.outgoing_fits;
}

reply_with-IsValid :
    (svc : Service) (p : Packet) (s : Connection) → IsValid s → IsValid (reply_with svc p s).0
unfolding reply_with
reply_with-IsValid svc p s v = elim (Option-cases (write svc.codec p s.writer).1) [
  | inl fails ↦ rw (fails, reply_with) (set_writer-IsValid _ s v)
  | inr (n, works) ↦ rw (works, reply_with) (set_writer-IsValid _ s v)
]

open_request-IsValid :
    (o : Option PacketHeader) (num : ℕ) (s : Connection)
    → IsValid s
    → IsValid (open_request o num s)
unfolding open_request
open_request-IsValid none num s v = v
open_request-IsValid (some h) num s v =
    set_incoming-IsValid _ s (Entries-insert IsCounted num _ s.incoming (omega arith) v.counted) v

on_header-IsValid : (p : Packet) (s : Connection) → IsValid s → IsValid (on_header p s).0
unfolding on_header
on_header-IsValid p s v = elim (Bool-cases (p.msg_no == s.next_incoming_msg_no)) [
  | inl due ↦ rw due (
      open_request-IsValid p.packet_header p.msg_no _ (record {
        quiet = v.quiet;
        counted = v.counted;
        incoming_fits = omega arith;
        outgoing_fits = v.outgoing_fits;
      }))
  | inr late ↦ rw late v
]

extend-IsCounted :
    (num : ℕ) (msg : IncomingRequest) (bs : Bytes)
    → IsCounted num msg
    → IsCounted num (extend msg bs)
extend-IsCounted num msg bs h = omega (arith, h, length-append msg.body bs)

on_data-IsValid :
    (svc : Service) (p : Packet) (s : Connection) → IsValid s → IsValid (on_data svc p s).0
unfolding on_data
on_data-IsValid svc p s v = elim (Option-cases (get p.msg_no s.incoming)) [
  | inl missing ↦ rw (missing, on_data) v
  | inr (msg, there) ↦
      let counted = Entries-get IsCounted p.msg_no msg s.incoming v.counted there in
      rw (there, on_data)
        (reply_with-IsValid svc _ _ (
          set_incoming-IsValid _ s
            (Entries-insert IsCounted p.msg_no (extend msg p.body) s.incoming
              (extend-IsCounted p.msg_no msg p.body counted) v.counted)
            v))
]

on_eof-IsValid :
    (svc : Service) (p : Packet) (s : Connection) → IsValid s → IsValid (on_eof svc p s).0
unfolding on_eof
on_eof-IsValid svc p s v = elim (Bool-cases (is_empty p.body)) [
  | inr full ↦ rw full v
  | inl empty ↦ elim (Option-cases (get p.msg_no s.incoming)) [
    | inl missing ↦ rw (empty) (rw (missing, on_eof) v)
    | inr (msg, there) ↦ rw (empty) (
        rw (there, on_eof)
          (dispatch_and_reply-IsValid svc msg _
            (set_incoming-IsValid _ s (Entries-remove IsCounted p.msg_no s.incoming v.counted) v)))
  ]
]

on_txerr-IsValid : (p : Packet) (s : Connection) → IsValid s → IsValid (on_txerr p s).0
unfolding on_txerr
on_txerr-IsValid p s v =
    let text = from_utf8_lossy p.body in
    elim (Bool-cases (is_empty text || same text (codes "0"))) [
      | inl void ↦ rw void v
      | inr real ↦
          rw real
            (set_incoming-IsValid _ s (Entries-remove IsCounted p.msg_no s.incoming v.counted) v)
    ]

accept_ack-quiet : (num v : ℕ) (s : Connection) → s.outgoing ≡ [] → accept_ack num v s ≡ s
unfolding accept_ack get
accept_ack-quiet num v s quiet = rw (ap (get num) quiet, accept_ack)

-- In a valid connection no reply has a state, so an acknowledgement changes nothing and the loop
-- goes on, whatever it says.
pub on_ack-IsValid : (p : Packet) (s : Connection) → IsValid s → on_ack p s ≡ (s, true)
unfolding on_ack
on_ack-IsValid p s v = elim (Option-cases (parse_u64 (from_utf8_lossy p.body))) [
  | inl bad ↦ rw (bad, on_ack)
  | inr (n, good) ↦ elim (Bool-cases (n == 0)) [
    | inl zero_ack ↦ rw (good, on_ack) (rw zero_ack)
    | inr positive ↦
        rw (good, on_ack)
          (rw positive (ap (λ t. (t, true)) (accept_ack-quiet p.msg_no n s v.quiet)))
  ]
]

route_as-IsValid :
    (t : PacketType) (svc : Service) (p : Packet) (s : Connection)
    → IsValid s
    → IsValid (dispatch_type t svc p s).0
unfolding dispatch_type
route_as-IsValid header svc p s v = on_header-IsValid p s v
route_as-IsValid data_chunk svc p s v = on_data-IsValid svc p s v
route_as-IsValid eof svc p s v = on_eof-IsValid svc p s v
route_as-IsValid txerr svc p s v = on_txerr-IsValid p s v
route_as-IsValid ack svc p s v = subst (λ r. IsValid r.0) (sym (on_ack-IsValid p s v)) v
route_as-IsValid ping svc p s v = reply_with-IsValid svc _ s v
route_as-IsValid pong svc p s v = v

-- Every packet keeps the connection valid: no reply under way, each incoming message counted, and
-- the two message numbers within a `u64`.
pub route_packet-IsValid :
    (svc : Service) (p : Packet) (s : Connection) → IsValid s → IsValid (route_packet svc p s).0
unfolding route_packet
route_packet-IsValid svc p s v = route_as-IsValid p.packet_type svc p s v
