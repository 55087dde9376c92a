-- ===== src/Client/Sender/Acks.antt =====
-- client/reader.rs: what a packet can do to the outgoing states.
use scamp_rs.Common.{
  ℕ, ◌≤◌, ◌<◌, ◌≡◌, refl, ap, ◌∙◌, sym, ◌⊎◌, inl, inr, ◌||◌, Option, none, some, Text, codes, arith,
  is_empty, same, ltb, leb, ◌==◌, ==→eq, Bool-cases, Option-cases, unwrap_or,
}
use scamp_rs.Common.Maps.{Map, get, insert, number_key, get-insert, get-insert_self}
use scamp_rs.Client.{IncomingMessage, OutgoingState, Client}
use scamp_rs.Client.Reader.{
  enqueue, deliver, on_header, open_message, on_data, finish_message, on_eof, on_txerr, acknowledge,
  accept_ack, on_ack, route_as, route_packet,
}
use scamp_rs.Proto.{PacketType, header, data_chunk, eof, txerr, ack, ping, pong}
use scamp_rs.Proto.Header.{PacketHeader}
use scamp_rs.Proto.Packet.{Packet}
use scamp_rs.Strings.Decimal.{parse_u64}
use scamp_rs.Strings.Utf8.{from_utf8_lossy}

-- The acknowledged count of `state` goes up to `v`, at most to what was sent.
abbrev pub IsRaised : OutgoingState → ℕ → Type 0
IsRaised state v = (state.acknowledged < v) × (v ≤ state.sent)

-- Each outgoing state is as it was, or its acknowledged count has gone up.
abbrev pub IsAcked : Map ℕ OutgoingState → Map ℕ OutgoingState → Type 0
IsAcked m m' =
    (num : ℕ)
    → (get num m' ≡ get num m)
      ⊎ ((state : OutgoingState) × (v : ℕ) × (get num m ≡ some state)
          × (get num m' ≡ some (record state { acknowledged = v }))
          × IsRaised state v)

acknowledge_lem :
    (v : ℕ) (state state' : OutgoingState)
    → acknowledge v state ≡ some state'
    → (record state { acknowledged = v } ≡ state') × IsRaised state v
unfolding acknowledge
acknowledge_lem v state state' h = elim (Bool-cases (leb v state.acknowledged)) [
  | inl old ↦ absurd (ground arith)
  | inr higher ↦ elim (Bool-cases (ltb state.sent v)) [
    | inl past ↦ absurd (ground arith)
    | inr within ↦
        let taken : acknowledge v state ≡ some (record state { acknowledged = v }) =
          rw higher (rw within refl) in
        (ap (λ o. unwrap_or o state) (sym taken ∙ h), (ground arith, ground arith))
  ]
]

enqueue-outgoing : (p : Packet) (s : Client) → (enqueue p s).outgoing ≡ s.outgoing
unfolding enqueue
enqueue-outgoing p s = ground arith

deliver-outgoing :
    (msg : IncomingMessage) (error : Option Text) (s : Client)
    → (deliver msg error s).outgoing ≡ s.outgoing
unfolding deliver
deliver-outgoing msg error s = elim (Option-cases (get msg.header.request_id s.pending)) [
  | inl idle ↦ rw (idle, deliver)
  | inr (tx, waits) ↦ rw (waits, deliver)
]

open_message-outgoing :
    (o : Option PacketHeader) (num : ℕ) (s : Client) → (open_message o num s).outgoing ≡ s.outgoing
unfolding open_message
open_message-outgoing none num s = refl
open_message-outgoing (some h) num s = refl

on_header-outgoing : (p : Packet) (s : Client) → (on_header p s).outgoing ≡ s.outgoing
unfolding on_header
on_header-outgoing p s = elim (Bool-cases (p.msg_no == s.next_incoming_msg_no)) [
  | inl due ↦ rw due (open_message-outgoing p.packet_header p.msg_no _)
  | inr late ↦ rw late
]

on_data-outgoing : (p : Packet) (s : Client) → (on_data p s).outgoing ≡ s.outgoing
unfolding on_data
on_data-outgoing p s = elim (Option-cases (get p.msg_no s.incoming)) [
  | inl missing ↦ rw (missing, on_data)
  | inr (msg, there) ↦ elim (Bool-cases (is_empty p.body)) [
    | inl empty ↦ rw (there, on_data) (rw empty)
    | inr full ↦ rw (there, on_data) (rw full (enqueue-outgoing _ _))
  ]
]

finish_message-outgoing :
    (num : ℕ) (error : Option Text) (s : Client)
    → (finish_message num error s).outgoing ≡ s.outgoing
unfolding finish_message
finish_message-outgoing num error s = elim (Option-cases (get num s.incoming)) [
  | inl missing ↦ rw (missing, finish_message)
  | inr (msg, there) ↦ rw (there, finish_message) (deliver-outgoing msg error _)
]

on_eof-outgoing : (p : Packet) (s : Client) → (on_eof p s).outgoing ≡ s.outgoing
unfolding on_eof
on_eof-outgoing p s = elim (Bool-cases (is_empty p.body)) [
  | inl empty ↦ rw empty (finish_message-outgoing p.msg_no none s)
  | inr full ↦ rw full
]

on_txerr-outgoing : (p : Packet) (s : Client) → (on_txerr p s).outgoing ≡ s.outgoing
unfolding on_txerr
on_txerr-outgoing p s =
    let text = from_utf8_lossy p.body in
    elim (Bool-cases (is_empty text || same text (codes "0"))) [
      | inl void ↦ rw void
      | inr real ↦ rw real (finish_message-outgoing p.msg_no (some text) s)
    ]

insert-IsAcked :
    (num v : ℕ) (state : OutgoingState) (m : Map ℕ OutgoingState)
    → get num m ≡ some state
    → IsRaised state v
    → IsAcked m (insert num (record state { acknowledged = v }) m)
insert-IsAcked num v state m there raised j = elim (Bool-cases (num == j)) [
  | inl hit ↦ inr (
    state,
    v,
    ap (λ i. get i m) (sym (==→eq num j hit)) ∙ there,
    rw (==→eq num j hit) (get-insert_self j _ m),
    raised,
  )
  | inr miss ↦ inl (rw (get-insert j num (record state { acknowledged = v }) m) (rw miss))
]

accept_ack-IsAcked : (num v : ℕ) (s : Client) → IsAcked s.outgoing (accept_ack num v s).outgoing
unfolding accept_ack
accept_ack-IsAcked num v s = elim (Option-cases (get num s.outgoing)) [
  | inl missing ↦ rw (missing, accept_ack) (λ j. inl refl)
  | inr (state, there) ↦ elim (Option-cases (acknowledge v state)) [
    | inl refused ↦ rw (there, accept_ack) (rw refused (λ j. inl refl))
    | inr (state', taken) ↦
        rw (there, accept_ack)
          (rw taken (
            let raised = acknowledge_lem v state state' taken in
            rw (sym raised.0) (insert-IsAcked num v state s.outgoing there raised.1)))
  ]
]

on_ack-IsAcked : (p : Packet) (s : Client) → IsAcked s.outgoing (on_ack p s).outgoing
unfolding on_ack
on_ack-IsAcked p s = elim (Option-cases (parse_u64 (from_utf8_lossy p.body))) [
  | inl bad ↦ rw (bad, on_ack) (λ j. inl refl)
  | inr (n, good) ↦ elim (Bool-cases (n == 0)) [
    | inl zero_ack ↦ rw (good, on_ack) (rw zero_ack (λ j. inl refl))
    | inr positive ↦ rw (good, on_ack) (rw positive (accept_ack-IsAcked p.msg_no n s))
  ]
]

same-IsAcked : (m m' : Map ℕ OutgoingState) → m' ≡ m → IsAcked m m'
same-IsAcked m m' e j = inl (ap (get j) e)

route_as-IsAcked :
    (t : PacketType) (p : Packet) (s : Client) → IsAcked s.outgoing (route_as t p s).outgoing
unfolding route_as
route_as-IsAcked header p s = same-IsAcked _ _ (on_header-outgoing p s)
route_as-IsAcked data_chunk p s = same-IsAcked _ _ (on_data-outgoing p s)
route_as-IsAcked eof p s = same-IsAcked _ _ (on_eof-outgoing p s)
route_as-IsAcked txerr p s = same-IsAcked _ _ (on_txerr-outgoing p s)
route_as-IsAcked ack p s = on_ack-IsAcked p s
route_as-IsAcked ping p s = same-IsAcked _ _ (enqueue-outgoing _ s)
route_as-IsAcked pong p s = same-IsAcked _ _ refl

-- A packet raises acknowledged counts, each at most to what was sent, and changes no other outgoing
-- state, whatever it says.
pub route_packet-IsAcked :
    (p : Packet) (s : Client) → IsAcked s.outgoing (route_packet p s).0.outgoing
unfolding route_packet
route_packet-IsAcked p s = route_as-IsAcked p.packet_type p s
