-- ===== src/Client/Sender/Watermark.antt =====
-- client/connection.rs: the bytes in flight of every request, over any run of a connection.
use scamp_rs.Common.{
  ℕ, ◌+◌, ◌≤◌, ◌<◌, ◌≡◌, refl, ap, ◌∙◌, sym, subst, inl, inr, false, some, List, [], ◌∷◌, Bytes,
  arith, length, ◌==◌, ==→eq, Bool-cases, Option-cases, All,
}
use scamp_rs.Common.Maps.{get, insert, number_key, get-insert, get-insert_self}
use scamp_rs.Common.Words.{u64_mod, add_u64}
use scamp_rs.Client.{OutgoingState, Client, new_outgoing}
use scamp_rs.Client.Reader.{route_packet, notify_all_pending}
use scamp_rs.Client.Sender.{
  Phase, opening, checking, sleeping, writing, counting, ending, awaiting, finished, Request,
  Connection, progress, time_out, begin, for_request, step, steps, Event, start, go_on, late,
  packet, reader_ends, reader_closes, writer_ends, from_stream, flow_control_watermark,
}
use scamp_rs.Client.Sender.Acks.{IsRaised, route_packet-IsAcked}
use scamp_rs.Client.Sender.Flow.{IsClear, IsPaced, IsFlow, IsValid, IsTame, same-some, get-other}
use scamp_rs.Client.Sender.Tame.{progress-IsTame, time_out-IsTame}
use scamp_rs.Proto.{data_chunk_size}
use scamp_rs.Proto.Header.{PacketHeader}
use scamp_rs.Proto.Packet.{Packet}

-- A body in memory has less than 2^64 bytes.
abbrev pub IsSized : Event → Type 0
IsSized (start h body) = length body < u64_mod
IsSized _ = Unit

-- A new entry under `num` that leaves the other outgoing states alone.
insert-IsValid :
    (k : Connection) (s : Client) (num : ℕ) (r : Request)
    → IsValid k
    → ((j : ℕ) → (num == j) ≡ false → get j s.outgoing ≡ get j k.client.outgoing)
    → IsFlow s.outgoing num r
    → IsValid (record k { client = s; requests = insert num r k.requests })
insert-IsValid k s num r v others flow j r' e = elim (Bool-cases (num == j)) [
  | inl hit ↦
      let here = ==→eq num j hit in
      subst (λ i. IsFlow s.outgoing i r') here
        (subst (IsFlow s.outgoing num)
          (same-some r r' (get num (insert num r k.requests)) (get-insert_self num r k.requests)
            (ap (λ i. get i (insert num r k.requests)) here ∙ e))
          flow)
  | inr miss ↦
      let old = v j r' (sym (rw (get-insert j num r k.requests) (rw miss refl)) ∙ e) in
      (old.0, old.1, λ state there. old.2 state (sym (others j miss) ∙ there))
]

for_request-IsValid :
    (act : ℕ → Request → Client → Request × Client) (num : ℕ) (k : Connection)
    → IsTame act
    → IsValid k
    → IsValid (for_request act num k)
unfolding for_request
for_request-IsValid act num k tame v = elim (Option-cases (get num k.requests)) [
  | inl gone ↦ rw (gone, for_request) v
  | inr (r, there) ↦
      let after = tame num r k.client (v num r there) in
      rw (there, for_request)
        (insert-IsValid k (act num r k.client).1 num (act num r k.client).0 v after.0 after.1)
]

begin-IsValid :
    (h : PacketHeader) (body : Bytes) (k : Connection)
    → length body < u64_mod
    → IsValid k
    → IsValid (begin h body k)
unfolding begin
begin-IsValid h body k fits v = elim (Bool-cases k.client.closed) [
  | inl gone ↦ rw (gone, begin) v
  | inr live ↦
      let num = k.client.next_outgoing_msg_no in
      let r : Request = record {
        header = record h { request_id = k.client.next_request_id };
        body = body;
        offset = 0;
        phase = opening;
      } in
      rw (live, begin)
        (insert-IsValid k
          (record (k.client) {
            next_request_id = add_u64 k.client.next_request_id 1;
            next_outgoing_msg_no = add_u64 num 1;
            pending = insert k.client.next_request_id k.client.next_request_id k.client.pending;
            outgoing = insert num new_outgoing k.client.outgoing;
          })
          num r v (λ j miss. get-other num j new_outgoing k.client.outgoing miss)
          (
            fits,
            omega arith,
            λ state e.
                subst (IsPaced r)
                  (same-some new_outgoing state
                    (get num (insert num new_outgoing k.client.outgoing))
                    (get-insert_self num new_outgoing k.client.outgoing) e)
                  (record {
                    acked = omega arith;
                    counted = refl;
                    in_flight = omega arith;
                    clear = tt;
                  }),
          ))
]

raised-IsClear :
    (t : Phase) (state : OutgoingState) (v : ℕ)
    → IsRaised state v
    → IsClear t state
    → IsClear t (record state { acknowledged = v })
raised-IsClear opening state v h c = tt
raised-IsClear checking state v h c = tt
raised-IsClear sleeping state v h c = tt
raised-IsClear writing state v h c = omega (arith, h.0, c)
raised-IsClear counting state v h c = omega (arith, h.0, c)
raised-IsClear ending state v h c = tt
raised-IsClear awaiting state v h c = tt
raised-IsClear (finished result) state v h c = tt

packet-IsValid :
    (p : Packet) (k : Connection)
    → IsValid k
    → IsValid (record k { client = (route_packet p k.client).0 })
packet-IsValid p k v num r e =
    let old = v num r e in
    (
      old.0,
      old.1,
      λ state there. elim (route_packet-IsAcked p k.client num) [
        | inl same ↦ old.2 state (sym same ∙ there)
        | inr (before, v', was, is, raised) ↦
            let paced = old.2 before was in
            subst (IsPaced r)
              (same-some _ state (get num (route_packet p k.client).0.outgoing) is there)
              (record {
                acked = raised.1;
                counted = paced.counted;
                in_flight = omega (arith, paced.in_flight, raised.0);
                clear = raised-IsClear r.phase before v' raised paced.clear;
              })
      ],
    )

step-IsValid : (e : Event) (k : Connection) → IsSized e → IsValid k → IsValid (step e k)
unfolding step notify_all_pending
step-IsValid (start h body) k fits v = begin-IsValid h body k fits v
step-IsValid (go_on num) k fits v = for_request-IsValid progress num k progress-IsTame v
step-IsValid (late num) k fits v = for_request-IsValid time_out num k time_out-IsTame v
step-IsValid (packet p) k fits v = elim (Bool-cases k.reading) [
  | inl on ↦ rw (on, step) (packet-IsValid p k v)
  | inr off ↦ rw (off, step) v
]
step-IsValid (reader_ends text) k fits v = elim (Bool-cases k.reading) [
  | inl on ↦ rw (on, step) v
  | inr off ↦ rw (off, step) v
]
step-IsValid reader_closes k fits v = elim (Bool-cases k.reading) [
  | inl on ↦ rw (on, step) v
  | inr off ↦ rw (off, step) v
]
step-IsValid writer_ends k fits v = v

steps-IsValid :
    (es : List Event) (k : Connection) → All IsSized es → IsValid k → IsValid (steps es k)
unfolding steps
steps-IsValid [] k fits v = v
steps-IsValid (e ∷ es) k fits v = steps-IsValid es (step e k) fits.1 (step-IsValid e k fits.0 v)

from_stream-IsValid : IsValid from_stream
unfolding get
from_stream-IsValid num r e = absurd (ground (arith, e))

-- Whatever happens on a connection, in whatever order its requests, its reader and its writer go on:
-- the bytes a request has sent are the offset it has reached in its body, the peer's acknowledgements
-- stay at or below them, and less than the watermark and one chunk (65536 + 2048 bytes) is in flight.
-- The bodies are shorter than 2^64 bytes.
pub from_stream-in_flight :
    (es : List Event) (num : ℕ) (r : Request) (state : OutgoingState)
    → All IsSized es
    → get num (steps es from_stream).requests ≡ some r
    → get num (steps es from_stream).client.outgoing ≡ some state
    → (state.sent ≡ r.offset)
      × (r.offset ≤ length r.body)
      × (state.acknowledged ≤ state.sent)
      × (state.sent < state.acknowledged + flow_control_watermark + data_chunk_size)
from_stream-in_flight es num r state fits there sends =
    let flow = steps-IsValid es from_stream fits from_stream-IsValid num r there in
    let paced = flow.2 state sends in (paced.counted, flow.1, paced.acked, paced.in_flight)
