-- ===== src/Server/Reply/Packets.antt =====
-- server_reply.rs: what a reply puts on the wire, and what it leaves behind.
use scamp_rs.Common.{
  ℕ, zero, suc, ◌+◌, ◌≡◌, refl, sym, ap, ◌∙◌, ◌⊎◌, inl, inr, Bool, true, false, some, [], ◌∷◌, ◌++◌,
  append_assoc, append-nil, map, arith, Bytes, length, take, drop, Option-cases, Bool-cases,
}
use scamp_rs.Common.Maps.{Map, get, insert, remove, remove-insert, remove-remove, number_key}
use scamp_rs.Common.Words.{add_u64}
use scamp_rs.Proto.{data_chunk_size}
use scamp_rs.Proto.Header.{FlexInt}
use scamp_rs.Proto.Message.{header_packet, data_packet, eof_packet, chunks, chunks_of, message}
use scamp_rs.Proto.Packet.{Packet, Codec}
use scamp_rs.Proto.Packet.Write.{
  Writer, write, write_all, IsOpen, to_bytes, header_line, body_bytes,
}
use scamp_rs.Server.{ScampReply, OutgoingReplyState, new_outgoing, Connection}
use scamp_rs.Server.Reply.{reply_header, add_sent, send_data, send_reply}
use scamp_rs.Stream.Delivery.{wire, wire-append}

-- A writer that has taken `bs` and takes everything to come.
abbrev pub open_writer : Bytes → Writer
open_writer bs = record { sent = bs; outcomes = [] }

pub write_size : Codec → Packet → ℕ
write_size c p = length (header_line c p) + length (body_bytes c p) + 5

write-open_writer :
    (c : Codec) (p : Packet) (bs : Bytes)
    → write c p (open_writer bs) ≡ (open_writer (bs ++ to_bytes c p), some (write_size c p))
unfolding write write_all to_bytes write_size
write-open_writer c p bs = simp append_assoc

pub write-IsOpen :
    (c : Codec) (p : Packet) (w : Writer)
    → IsOpen w
    → write c p w ≡ (open_writer (w.sent ++ to_bytes c p), some (write_size c p))
write-IsOpen c p w h =
    ap (write c p) {y = open_writer w.sent} (λ i. record { sent = w.sent; outcomes = h i })
    ∙ write-open_writer c p w.sent

remove-add_sent :
    (num n : ℕ) (out : Map ℕ OutgoingReplyState) → remove num (add_sent num n out) ≡ remove num out
unfolding add_sent
remove-add_sent num n out = elim (Option-cases (get num out)) [
  | inl missing ↦ rw (missing, add_sent)
  | inr (state, there) ↦ rw (there, add_sent) (remove-insert num _ out)
]

-- Whatever the writer does, only the entry of the message itself changes, and it is gone if the
-- writer has failed.
send_data-outgoing :
    (c : Codec) (num fuel : ℕ) (rest : Bytes) (out : Map ℕ OutgoingReplyState) (w : Writer)
    → let r = send_data c num fuel rest out w in
      (remove num r.0 ≡ remove num out) × ((r.2 ≡ true) ⊎ (r.0 ≡ remove num out))
unfolding send_data
send_data-outgoing c num zero [] out w = (refl, inl refl)
send_data-outgoing c num (suc fuel) [] out w = (refl, inl refl)
send_data-outgoing c num zero (b ∷ bs) out w = (refl, inl refl)
send_data-outgoing c num (suc fuel) (b ∷ bs) out w =
    let chunk = take data_chunk_size (b ∷ bs) in
    let step = write c (data_packet num chunk) w in
    let later =
      send_data-outgoing c num fuel (drop data_chunk_size (b ∷ bs))
        (add_sent num (length chunk) out) step.0 in
    elim (Option-cases step.1) [
      | inl fails ↦ rw (fails, send_data) (remove-remove num out, inr refl)
      | inr (n, works) ↦ rw (works, send_data) (rw remove-add_sent at later)
    ]

unsent {ℓ} : {P : Type ℓ} {b : Bool} → b ≡ false → (b ≡ true) ⊎ P → P
unsent fails (inl works) = cc
unsent fails (inr p) = p

-- `send_reply` removes the state of the reply again, on every path and whatever the writer does.
pub send_reply-outgoing :
    (c : Codec) (r : ScampReply) (request_id : FlexInt) (s : Connection)
    → (send_reply c r request_id s).outgoing ≡ remove s.next_outgoing_msg_no s.outgoing
unfolding send_reply
send_reply-outgoing c r request_id s =
    let num = s.next_outgoing_msg_no in
    let opened = insert num new_outgoing s.outgoing in
    let head = write c (header_packet num (reply_header r request_id)) s.writer in
    let body = send_data c num (length r.body) r.body opened head.0 in
    let kept = send_data-outgoing c num (length r.body) r.body opened head.0 in
    elim (Option-cases head.1) [
      | inl fails ↦ rw (fails, send_reply) (remove-insert num new_outgoing s.outgoing)
      | inr (n, works) ↦ elim (Bool-cases body.2) [
        | inl sent ↦
            rw (works, send_reply)
              (rw (sent, send_reply) (kept.0 ∙ remove-insert num new_outgoing s.outgoing))
        | inr fails ↦
            rw (works, send_reply)
              (rw (fails, send_reply)
                (unsent fails kept.1 ∙ remove-insert num new_outgoing s.outgoing))
      ]
    ]

send_data-open_writer :
    (c : Codec) (num fuel : ℕ) (rest : Bytes) (out : Map ℕ OutgoingReplyState) (bs : Bytes)
    → let r = send_data c num fuel rest out (open_writer bs) in
      (r.1 ≡ open_writer (bs ++ wire c (map (data_packet num) (chunks fuel rest)))) × (r.2 ≡ true)
unfolding send_data chunks wire
send_data-open_writer c num zero [] out bs = (ap open_writer (sym (append-nil bs)), refl)
send_data-open_writer c num (suc fuel) [] out bs = (ap open_writer (sym (append-nil bs)), refl)
send_data-open_writer c num zero (b ∷ rest) out bs = (ap open_writer (sym (append-nil bs)), refl)
send_data-open_writer c num (suc fuel) (b ∷ rest) out bs =
    let chunk = take data_chunk_size (b ∷ rest) in
    let later =
      send_data-open_writer c num fuel (drop data_chunk_size (b ∷ rest))
        (add_sent num (length chunk) out) (bs ++ to_bytes c (data_packet num chunk)) in
    let taken = write-open_writer c (data_packet num chunk) bs in
    rw (taken, send_data) (rw taken (rw append_assoc at later))

-- With a writer that takes everything, a reply puts one message on the wire, under the next number
-- of the connection: its header, the body in chunks, and the end. Nothing else of the connection
-- changes but that number; the reply's state is removed.
pub send_reply-message :
    (c : Codec) (r : ScampReply) (request_id : FlexInt) (s : Connection)
    → IsOpen s.writer
    → send_reply c r request_id s ≡ record s {
      outgoing = remove s.next_outgoing_msg_no s.outgoing;
      next_outgoing_msg_no = add_u64 s.next_outgoing_msg_no 1;
      writer = open_writer (
          s.writer.sent
          ++ wire c (message s.next_outgoing_msg_no (reply_header r request_id) r.body));
    }
unfolding send_reply wire
send_reply-message c r request_id s h =
    let num = s.next_outgoing_msg_no in
    let first = header_packet num (reply_header r request_id) in
    let opened = insert num new_outgoing s.outgoing in
    let begun = s.writer.sent ++ to_bytes c first in
    let head = write-IsOpen c first s.writer h in
    let body = send_data-open_writer c num (length r.body) r.body opened begun in
    let kept = send_data-outgoing c num (length r.body) r.body opened (open_writer begun) in
    let data_bytes = wire c (map (data_packet num) (chunks_of r.body)) in
    let bytes : (begun ++ data_bytes) ++ to_bytes c (eof_packet num)
        ≡ s.writer.sent ++ wire c (message num (reply_header r request_id) r.body) =
      simp (append_assoc, wire-append, append-nil) in
    let written : (write c (eof_packet num)
          (send_data c num (length r.body) r.body opened (open_writer begun)).1).0
        ≡ open_writer (s.writer.sent ++ wire c (message num (reply_header r request_id) r.body)) =
      ap (λ w. (write c (eof_packet num) w).0) body.0
      ∙ ap (λ t. t.0) (write-open_writer c (eof_packet num) (begun ++ data_bytes))
      ∙ ap open_writer bytes in
    let removed = kept.0 ∙ remove-insert num new_outgoing s.outgoing in
    rw (head, send_reply)
      (rw head (
        rw (body.1, send_reply)
          (rw head (λ i. record s {
            outgoing = removed i;
            next_outgoing_msg_no = add_u64 num 1;
            writer = written i;
          }))))

-- Sending a reply calls no handler, and leaves the incoming messages alone.
pub send_reply-keeps :
    (c : Codec) (r : ScampReply) (request_id : FlexInt) (s : Connection)
    → let t = send_reply c r request_id s in
      (t.calls ≡ s.calls)
      × (t.incoming ≡ s.incoming)
      × (t.next_incoming_msg_no ≡ s.next_incoming_msg_no)
      × (t.next_outgoing_msg_no ≡ add_u64 s.next_outgoing_msg_no 1)
unfolding send_reply
send_reply-keeps c r request_id s = ground arith
