-- ===== src/Server/Reply.antt =====
-- server_reply.rs, `send_reply`.
pub mod Packets
use scamp_rs.Common.{
  ℕ, zero, suc, ◌+◌, Bool, true, false, Option, none, some, List, [], ◌∷◌, Text, Bytes, codes,
  length, take, drop, is_empty, if◌then◌else◌,
}
use scamp_rs.Common.Maps.{Map, get, insert, remove, number_key}
use scamp_rs.Common.Words.{add_u64}
use scamp_rs.Proto.{data_chunk_size}
use scamp_rs.Proto.Header.{FlexInt, PacketHeader, json, reply}
use scamp_rs.Proto.Message.{header_packet, data_packet, eof_packet}
use scamp_rs.Proto.Packet.{Packet, Codec}
use scamp_rs.Proto.Packet.Write.{Writer, write}
use scamp_rs.Server.{ScampReply, OutgoingReplyState, new_outgoing, Connection}

abbrev pub reply_header : ScampReply → FlexInt → PacketHeader
reply_header r request_id = record {
  action = codes "";
  envelope = json;
  error = r.error;
  error_code = r.error_code;
  error_data = r.error_data;
  request_id = request_id;
  client_id = 0;
  ticket = codes "";
  identifying_token = codes "";
  message_type = reply;
  version = 0;
}

-- `state.sent += chunk_len`, if the message has a state.
unfoldable pub add_sent : ℕ → ℕ → Map ℕ OutgoingReplyState → Map ℕ OutgoingReplyState
add_sent num n out = elim (get num out) [
  | none ↦ out
  | some state ↦ insert num (record state { sent = add_u64 state.sent n }) out
]

-- The loop over the chunks of the body: `rest` is `reply.body[offset..]`, and its length is fuel
-- enough. `false` is an error of the writer.
unfoldable pub send_data :
    Codec
    → ℕ
    → ℕ
    → Bytes
    → Map ℕ OutgoingReplyState
    → Writer
    → Map ℕ OutgoingReplyState × Writer × Bool
unfolding add_sent
send_data c num fuel [] out w = (out, w, true)
send_data c num zero (b ∷ bs) out w = (out, w, true)
send_data c num (suc fuel) (b ∷ bs) out w =
    let chunk = take data_chunk_size (b ∷ bs) in
    let (w', written) = write c (data_packet num chunk) w in
    elim written [
      | none ↦ (remove num out, w', false)
      | some n ↦
          send_data c num fuel (drop data_chunk_size (b ∷ bs)) (add_sent num (length chunk) out) w'
    ]

unfoldable pub send_reply : Codec → ScampReply → FlexInt → Connection → Connection
send_reply c r request_id s =
    let num = s.next_outgoing_msg_no in
    let s1 = record s { next_outgoing_msg_no = add_u64 num 1 } in
    let opened = insert num new_outgoing s.outgoing in
    let (w1, header_written) = write c (header_packet num (reply_header r request_id)) s.writer in
    elim header_written [
      | none ↦ record s1 { outgoing = remove num opened; writer = w1 }
      | some n ↦
          let (out, w2, data_written) = send_data c num (length r.body) r.body opened w1 in
          elim data_written [
            | false ↦ record s1 { outgoing = out; writer = w2 }
            | true ↦
                let (w3, eof_written) = write c (eof_packet num) w2 in
                record s1 { outgoing = remove num out; writer = w3 }
          ]
    ]
