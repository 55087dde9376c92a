-- ===== src/Client/Reader/Owed.antt =====
-- client/reader.rs: a packet takes no request away but by a response.
use scamp_rs.Common.{
  ℕ, ◌≡◌, refl, ap, ◌∙◌, ◌⊎◌, ◌||◌, inl, inr, Option, none, some, ◌∷◌, Text, codes, arith,
  Bool-cases, Option-cases, is_empty, same, ==_refl, ◌==◌,
}
use scamp_rs.Common.Maps.{Map, get, remove, get-remove, number_key}
use scamp_rs.Client.{ScampResponse, IncomingMessage, Client}
use scamp_rs.Client.Reader.{
  deliver, finish_message, enqueue, open_message, on_header, on_data, on_ack, accept_ack,
  acknowledge, on_eof, on_txerr, pong_packet, route_as, route_packet,
}
use scamp_rs.Proto.{PacketType, header, data_chunk, eof, txerr, ack, ping, pong}
use scamp_rs.Proto.Packet.{Packet}
use scamp_rs.Strings.Decimal.{parse_u64}
use scamp_rs.Strings.Utf8.{from_utf8_lossy}

pub delivered-cons :
    (t tx : ℕ) (r : ScampResponse) (done : Map ℕ ScampResponse)
    → ((resp : ScampResponse) × (get tx done ≡ some resp))
    → (resp : ScampResponse) × (get tx ((t, r) ∷ done) ≡ some resp)
unfolding get
delivered-cons t tx r done (resp, h) = elim (Bool-cases (t == tx)) [
  | inl hit ↦ (r, rw hit refl)
  | inr miss ↦ (resp, rw miss h)
]

-- The request with this id waits on the channel `tx`, or a response was sent there.
abbrev pub IsOwed : ℕ → ℕ → Client → Type 0
IsOwed id tx s =
    (get id s.pending ≡ some tx) ⊎ ((resp : ScampResponse) × (get tx s.delivered ≡ some resp))

deliver-IsOwed :
    (msg : IncomingMessage) (error : Option Text) (id tx : ℕ) (s : Client)
    → IsOwed id tx s
    → IsOwed id tx (deliver msg error s)
unfolding deliver get
deliver-IsOwed msg error id tx s h = elim (Option-cases (get msg.header.request_id s.pending)) [
  | inl unknown ↦ rw (unknown, deliver) h
  | inr (t, found) ↦ rw (found, deliver) (taken_off t found h)
]
  where
    taken_off :
        (t : ℕ)
        → get msg.header.request_id s.pending ≡ some t
        → IsOwed id tx s
        → (get id (remove msg.header.request_id s.pending) ≡ some tx)
          ⊎ ((resp : ScampResponse) × (get tx (
                  (t, record { header = msg.header; body = msg.body; error = error }) ∷ s.delivered)
                ≡ some resp))
    taken_off t found (inr sent) = inr (delivered-cons t tx _ s.delivered sent)
    taken_off t found (inl waits) = elim (Bool-cases (msg.header.request_id == id)) [
      | inl hit ↦
          let same_tx : t ≡ tx = ground (arith, hit, found, waits) in
          inr (
            record { header = msg.header; body = msg.body; error = error },
            rw (same_tx, get, ==_refl tx) refl,
          )
      | inr miss ↦ inl (get-remove id msg.header.request_id s.pending ∙ rw miss waits)
    ]

finish_message-IsOwed :
    (num : ℕ) (error : Option Text) (id tx : ℕ) (s : Client)
    → IsOwed id tx s
    → IsOwed id tx (finish_message num error s)
unfolding finish_message
finish_message-IsOwed num error id tx s h = elim (Option-cases (get num s.incoming)) [
  | inl unknown ↦ rw (unknown, finish_message) h
  | inr (msg, found) ↦
      rw (found, finish_message)
        (deliver-IsOwed msg error id tx (record s { incoming = remove num s.incoming }) h)
]

-- The handler leaves the requests and the responses alone.
abbrev IsAside : (Client → Client) → Type 0
IsAside f = (s : Client) → ((f s).pending ≡ s.pending) × ((f s).delivered ≡ s.delivered)

enqueue-IsAside : (p : Packet) → IsAside (enqueue p)
unfolding enqueue
enqueue-IsAside p s = elim (Bool-cases s.queue_open) [
  | inl open_queue ↦ rw open_queue (refl, refl)
  | inr shut ↦ rw shut (refl, refl)
]

on_header-IsAside : (p : Packet) → IsAside (on_header p)
unfolding on_header open_message
on_header-IsAside p s = elim (Bool-cases (p.msg_no == s.next_incoming_msg_no)) [
  | inr out_of_sequence ↦ rw (out_of_sequence, on_header) (refl, refl)
  | inl expected ↦ elim (Option-cases p.packet_header) [
    | inl missing ↦ rw (expected, missing, on_header) (refl, refl)
    | inr (h, given) ↦ rw (expected, given, on_header) (refl, refl)
  ]
]

on_data-IsAside : (p : Packet) → IsAside (on_data p)
unfolding on_data
on_data-IsAside p s = elim (Option-cases (get p.msg_no s.incoming)) [
  | inl unknown ↦ rw (unknown, on_data) (refl, refl)
  | inr (msg, found) ↦ elim (Bool-cases (is_empty p.body)) [
    | inl empty ↦ rw (found, empty, on_data) (refl, refl)
    | inr full ↦ rw (found, full, on_data) (enqueue-IsAside _ _)
  ]
]

accept_ack-IsAside : (num v : ℕ) → IsAside (accept_ack num v)
unfolding accept_ack
accept_ack-IsAside num v s = elim (Option-cases (get num s.outgoing)) [
  | inl unknown ↦ rw (unknown, accept_ack) (refl, refl)
  | inr (state, found) ↦ elim (Option-cases (acknowledge v state)) [
    | inl stale ↦ rw (found, stale, accept_ack) (refl, refl)
    | inr (state', new) ↦ rw (found, new, accept_ack) (refl, refl)
  ]
]

on_ack-IsAside : (p : Packet) → IsAside (on_ack p)
unfolding on_ack
on_ack-IsAside p s = elim (Option-cases (parse_u64 (from_utf8_lossy p.body))) [
  | inl bad ↦ rw (bad, on_ack) (refl, refl)
  | inr (v, read) ↦ elim (Bool-cases (v == 0)) [
    | inl zero_ack ↦ rw (read, zero_ack, on_ack) (refl, refl)
    | inr some_ack ↦ rw (read, some_ack, on_ack) (accept_ack-IsAside p.msg_no v s)
  ]
]

IsAside-IsOwed :
    (f : Client → Client) (id tx : ℕ) (s : Client) → IsAside f → IsOwed id tx s → IsOwed id tx (f s)
IsAside-IsOwed f id tx s aside (inl waits) = inl (ap (get id) (aside s).0 ∙ waits)
IsAside-IsOwed f id tx s aside (inr (resp, sent)) = inr (resp, ap (get tx) (aside s).1 ∙ sent)

route_as-IsOwed :
    (t : PacketType) (p : Packet) (id tx : ℕ) (s : Client)
    → IsOwed id tx s
    → IsOwed id tx (route_as t p s)
unfolding route_as on_eof on_txerr
route_as-IsOwed header p id tx s h = IsAside-IsOwed (on_header p) id tx s (on_header-IsAside p) h
route_as-IsOwed data_chunk p id tx s h = IsAside-IsOwed (on_data p) id tx s (on_data-IsAside p) h
route_as-IsOwed eof p id tx s h = elim (Bool-cases (is_empty p.body)) [
  | inl empty ↦ rw empty (finish_message-IsOwed p.msg_no none id tx s h)
  | inr full ↦ rw full h
]
route_as-IsOwed txerr p id tx s h =
    let text = from_utf8_lossy p.body in
    elim (Bool-cases (is_empty text || same text (codes "0"))) [
      | inl dull ↦ rw dull h
      | inr telling ↦ rw telling (finish_message-IsOwed p.msg_no (some text) id tx s h)
    ]
route_as-IsOwed ack p id tx s h = IsAside-IsOwed (on_ack p) id tx s (on_ack-IsAside p) h
route_as-IsOwed ping p id tx s h =
    IsAside-IsOwed (enqueue (pong_packet p.msg_no)) id tx s (enqueue-IsAside (pong_packet p.msg_no))
      h
route_as-IsOwed pong p id tx s h = h

-- Every packet keeps it.
pub route_packet-IsOwed :
    (id tx : ℕ) (p : Packet) (s : Client) → IsOwed id tx s → IsOwed id tx (route_packet p s).0
unfolding route_packet
route_packet-IsOwed id tx p s h = route_as-IsOwed p.packet_type p id tx s h
