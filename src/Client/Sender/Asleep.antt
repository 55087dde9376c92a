-- ===== src/Client/Sender/Asleep.antt =====
-- client/connection.rs and reader.rs: a request that waits for an acknowledgement when the reader ends.
use scamp_rs.Common.{
  ℕ, ◌≡◌, refl, ap, ◌∙◌, sym, subst, inl, inr, true, false, some, List, [], ◌∷◌, Bytes, Text, arith,
  length, ltb, ◌==◌, ==→eq, Bool-cases, Option-cases, if◌then◌else◌,
}
use scamp_rs.Common.Maps.{get, insert, number_key, get-insert, get-insert_self}
use mathlib.Core.Option.{some-injective}
use scamp_rs.Client.{Client}
use scamp_rs.Client.Reader.{enqueue, route_packet, notify_all_pending}
use scamp_rs.Client.Sender.{
  Phase, opening, checking, sleeping, writing, counting, ending, awaiting, finished, Request,
  Connection, cleanup_request, send_packet, over_watermark, check, count, receive, resume, progress,
  expire, time_out, begin, for_request, step, steps, Event, start, go_on, late, packet, reader_ends,
  reader_closes, writer_ends,
}
use scamp_rs.Proto.Header.{PacketHeader}
use scamp_rs.Proto.Packet.{Packet}

-- The reader is gone and the flag is set, no permit is stored, and the request `r` waits for one.
pub record IsStuck (num : ℕ) (r : Request) (k : Connection) : Type 0 where
  pub gone : k.reading ≡ false
  pub flagged : k.client.closed ≡ true
  pub no_permit : k.client.permit ≡ false
  pub waits : get num k.requests ≡ some r
  pub asleep : r.phase ≡ sleeping

-- What a step of a request does to the two flags: nothing, but to take the permit.
IsQuiet : Client → Client → Type 0
IsQuiet s t = (t.closed ≡ s.closed) × (s.permit ≡ false → t.permit ≡ false)

send_packet-IsQuiet :
    (p : Packet) (error : Text) (next : Phase) (num : ℕ) (r : Request) (s : Client)
    → IsQuiet s (send_packet p error next num r s).1
unfolding send_packet cleanup_request enqueue IsQuiet
send_packet-IsQuiet p error next num r s = elim (Bool-cases s.queue_open) [
  | inl works ↦ rw works (refl, λ e. e)
  | inr gone ↦ rw gone (refl, λ e. e)
]

check-IsQuiet : (num : ℕ) (r : Request) (s : Client) → IsQuiet s (check num r s).1
unfolding check cleanup_request IsQuiet
check-IsQuiet num r s = elim (Bool-cases (ltb r.offset (length r.body))) [
  | inr done ↦ rw done (refl, λ e. e)
  | inl more ↦ elim (Bool-cases s.closed) [
    | inl gone ↦ rw more (rw gone (refl, λ e. e))
    | inr live ↦ elim (Bool-cases (over_watermark num s)) [
      | inl high ↦ rw (more, check) (rw live (rw (high, check) (refl, λ e. e)))
      | inr low ↦ rw (more, check) (rw live (rw (low, check) (refl, λ e. e)))
    ]
  ]
]

count-IsQuiet : (num : ℕ) (r : Request) (s : Client) → IsQuiet s (count num r s).1
unfolding count IsQuiet
count-IsQuiet num r s = elim (Option-cases (get num s.outgoing)) [
  | inl gone ↦ rw (gone, count) (refl, λ e. e)
  | inr (state, there) ↦ rw (there, count) (refl, λ e. e)
]

receive-IsQuiet : (num : ℕ) (r : Request) (s : Client) → IsQuiet s (receive num r s).1
unfolding receive IsQuiet
receive-IsQuiet num r s = elim (Option-cases (get r.header.request_id s.delivered)) [
  | inl idle ↦ rw (idle, receive) (refl, λ e. e)
  | inr (answer, come) ↦ rw (come, receive) (refl, λ e. e)
]

resume-IsQuiet : (t : Phase) (num : ℕ) (r : Request) (s : Client) → IsQuiet s (resume t num r s).1
unfolding resume IsQuiet
resume-IsQuiet opening num r s = send_packet-IsQuiet _ _ checking num r s
resume-IsQuiet checking num r s = check-IsQuiet num r s
resume-IsQuiet sleeping num r s = elim (Bool-cases s.permit) [
  | inl woken ↦ rw woken (refl, λ e. refl)
  | inr still ↦ rw still (refl, λ e. e)
]
resume-IsQuiet writing num r s = send_packet-IsQuiet _ _ counting num r s
resume-IsQuiet counting num r s = count-IsQuiet num r s
resume-IsQuiet ending num r s = send_packet-IsQuiet _ _ awaiting num r s
resume-IsQuiet awaiting num r s = receive-IsQuiet num r s
resume-IsQuiet (finished result) num r s = (refl, λ e. e)

expire-IsQuiet : (t : Phase) (num : ℕ) (r : Request) (s : Client) → IsQuiet s (expire t num r s).1
unfolding expire cleanup_request IsQuiet
expire-IsQuiet opening num r s = (refl, λ e. e)
expire-IsQuiet checking num r s = (refl, λ e. e)
expire-IsQuiet sleeping num r s = (refl, λ e. e)
expire-IsQuiet writing num r s = (refl, λ e. e)
expire-IsQuiet counting num r s = (refl, λ e. e)
expire-IsQuiet ending num r s = (refl, λ e. e)
expire-IsQuiet awaiting num r s = (refl, λ e. e)
expire-IsQuiet (finished result) num r s = (refl, λ e. e)

insert-stays :
    (act : ℕ → Request → Client → Request × Client) (j num : ℕ) (r q : Request) (k : Connection)
    → ((s : Client) → s.permit ≡ false → act num r s ≡ (r, s))
    → IsStuck num r k
    → get j k.requests ≡ some q
    → get num (insert j (act j q k.client).0 k.requests) ≡ some r
insert-stays act j num r q k own h there = elim (Bool-cases (j == num)) [
  | inr miss ↦ rw (get-insert num j (act j q k.client).0 k.requests) (rw miss h.waits)
  | inl hit ↦
      let here = ==→eq j num hit in
      let is_r : r ≡ q =
        some-injective _ _ (sym h.waits ∙ ap (λ i. get i k.requests) (sym here) ∙ there) in
      let stays : (act num q k.client).0 ≡ r =
        subst (λ t. (act num t k.client).0 ≡ r) is_r (ap (λ t. t.0) (own k.client h.no_permit)) in
      ap (λ i. get num (insert i (act i q k.client).0 k.requests)) here
      ∙ get-insert_self num (act num q k.client).0 k.requests
      ∙ ap some stays
]

begin-closed :
    (h : PacketHeader) (body : Bytes) (k : Connection) → k.client.closed ≡ true → begin h body k ≡ k
unfolding begin
begin-closed h body k e = ground (arith, e)

progress-asleep :
    (num : ℕ) (r : Request) (s : Client)
    → r.phase ≡ sleeping
    → s.permit ≡ false
    → progress num r s ≡ (r, s)
unfolding progress resume
progress-asleep num r s e f =
    ap (λ t. resume t num r s) e
    ∙ ap (λ b. if b then (record r { phase = checking }, record s { permit = false }) else (r, s)) f

time_out-asleep :
    (num : ℕ) (r : Request) (s : Client) → r.phase ≡ sleeping → time_out num r s ≡ (r, s)
unfolding time_out expire
time_out-asleep num r s e = ap (λ t. expire t num r s) e

-- A step of any request leaves a stuck one as it is; its own step is the wait.
for_request-IsStuck :
    (act : ℕ → Request → Client → Request × Client) (j num : ℕ) (r : Request) (k : Connection)
    → ((i : ℕ) (q : Request) (s : Client) → IsQuiet s (act i q s).1)
    → ((s : Client) → s.permit ≡ false → act num r s ≡ (r, s))
    → IsStuck num r k
    → IsStuck num r (for_request act j k)
unfolding for_request IsQuiet
for_request-IsStuck act j num r k quiet own h = elim (Option-cases (get j k.requests)) [
  | inl missing ↦ rw (missing, for_request) h
  | inr (q, there) ↦
      let q_quiet = quiet j q k.client in
      rw (there, for_request)
        (record {
          gone = h.gone;
          flagged = q_quiet.0 ∙ h.flagged;
          no_permit = q_quiet.1 h.no_permit;
          waits = insert-stays act j num r q k own h there;
          asleep = h.asleep;
        })
]

step-IsStuck :
    (e : Event) (num : ℕ) (r : Request) (k : Connection)
    → IsStuck num r k
    → IsStuck num r (step e k)
unfolding step progress time_out notify_all_pending route_packet
step-IsStuck (start h body) num r k stuck =
    subst (IsStuck num r) (sym (begin-closed h body k stuck.flagged)) stuck
step-IsStuck (go_on j) num r k stuck =
    for_request-IsStuck progress j num r k (λ i q s. resume-IsQuiet q.phase i q s)
      (λ s. progress-asleep num r s stuck.asleep) stuck
step-IsStuck (late j) num r k stuck =
    for_request-IsStuck time_out j num r k (λ i q s. expire-IsQuiet q.phase i q s)
      (λ s e. time_out-asleep num r s stuck.asleep) stuck
step-IsStuck (packet p) num r k stuck =
    subst (λ b. IsStuck num r (if b then record k { client = (route_packet p k.client).0 } else k))
      (sym stuck.gone) stuck
step-IsStuck (reader_ends text) num r k stuck =
    subst
      (λ b.
        IsStuck num r (
          if b then record k { client = notify_all_pending text k.client; reading = false } else k))
      (sym stuck.gone) stuck
step-IsStuck reader_closes num r k stuck =
    subst
      (λ b.
        IsStuck num r (if b then k else record k { client = record (k.client) { closed = true } }))
      (sym stuck.gone)
      (record {
        gone = stuck.gone;
        flagged = refl;
        no_permit = stuck.no_permit;
        waits = stuck.waits;
        asleep = stuck.asleep;
      })
step-IsStuck writer_ends num r k stuck = record {
  gone = stuck.gone;
  flagged = stuck.flagged;
  no_permit = stuck.no_permit;
  waits = stuck.waits;
  asleep = stuck.asleep;
}

-- A request that waits for an acknowledgement when the reader is gone and the connection is
-- flagged closed, with no permit stored, waits for ever: whatever happens on the connection, the
-- request stays at the wait, so its call does not return.
pub steps-IsStuck :
    (es : List Event) (num : ℕ) (r : Request) (k : Connection)
    → IsStuck num r k
    → get num (steps es k).requests ≡ some r
unfolding steps
steps-IsStuck [] num r k stuck = stuck.waits
steps-IsStuck (e ∷ es) num r k stuck =
    steps-IsStuck es num r (step e k) (step-IsStuck e num r k stuck)
