-- ===== src/Client/Sender/Flow.antt =====
-- client/connection.rs: the flow control of `send_request`, whatever the requests of a connection, its
-- reader and its peer do in between.
use scamp_rs.Common.{
  ℕ, ◌+◌, ◌-◌, ◌≤◌, ◌<◌, ◌≡◌, refl, ap, ◌∙◌, sym, subst, inl, inr, false, Option, some, Text, arith,
  length, drop, length-take, length-drop, ltb, leb, ◌==◌, Bool-cases, Option-cases, unwrap_or,
}
use scamp_rs.Common.Maps.{
  Map, get, insert, remove, number_key, get-insert, get-remove, get-insert_self, get-remove_self,
}
use scamp_rs.Common.Words.{u64_mod, add_u64}
use scamp_rs.Client.{OutgoingState, Client}
use scamp_rs.Client.Reader.{enqueue}
use scamp_rs.Client.Sender.{
  Phase, checking, sleeping, writing, counting, ending, finished, Request, Connection, failed,
  cleanup_request, send_packet, over_watermark, check, next_chunk, count, flow_control_watermark,
}
use scamp_rs.Proto.{data_chunk_size}
use scamp_rs.Proto.Packet.{Packet}

-- A request that has passed the watermark has less than that in flight.
abbrev pub IsClear : Phase → OutgoingState → Type 0
IsClear writing state = state.sent < state.acknowledged + flow_control_watermark
IsClear counting state = state.sent < state.acknowledged + flow_control_watermark
IsClear _ state = Unit

-- The outgoing state of a request: its counts, and the bytes in flight.
pub record IsPaced (r : Request) (state : OutgoingState) : Type 0 where
  pub acked : state.acknowledged ≤ state.sent
  pub counted : state.sent ≡ r.offset
  pub in_flight : state.sent < state.acknowledged + flow_control_watermark + data_chunk_size
  pub clear : IsClear r.phase state

abbrev pub IsFlow : Map ℕ OutgoingState → ℕ → Request → Type 0
IsFlow m num r =
    (length r.body < u64_mod)
    × (r.offset ≤ length r.body)
    × ((state : OutgoingState) → get num m ≡ some state → IsPaced r state)

-- Every request keeps to the flow control.
abbrev pub IsValid : Connection → Type 0
IsValid k = (num : ℕ) (r : Request) → get num k.requests ≡ some r → IsFlow k.client.outgoing num r

-- What a step of one request keeps.
abbrev pub IsTame : (ℕ → Request → Client → Request × Client) → Type 0
IsTame act =
    (num : ℕ) (r : Request) (s : Client)
    → IsFlow s.outgoing num r
    → ((j : ℕ) → (num == j) ≡ false → get j (act num r s).1.outgoing ≡ get j s.outgoing)
      × IsFlow (act num r s).1.outgoing num (act num r s).0

pub same-some : {A : Type 0} (a b : A) (o : Option A) → o ≡ some a → o ≡ some b → a ≡ b
same-some a b o e f = ap (λ t. unwrap_or t a) (sym e ∙ f)

pub get-other :
    (num j : ℕ) (state : OutgoingState) (m : Map ℕ OutgoingState)
    → (num == j) ≡ false
    → get j (insert num state m) ≡ get j m
get-other num j state m miss = rw (get-insert j num state m) (rw miss)

pub remove-other :
    (num j : ℕ) (m : Map ℕ OutgoingState) → (num == j) ≡ false → get j (remove num m) ≡ get j m
remove-other num j m miss = rw (get-remove j num m) (rw miss)

-- Nothing is claimed of a request whose outgoing state is gone.
pub removed-IsFlow :
    (num : ℕ) (r : Request) (m : Map ℕ OutgoingState)
    → length r.body < u64_mod
    → r.offset ≤ length r.body
    → IsFlow (remove num m) num r
removed-IsFlow num r m fits within =
    (fits, within, λ state e. absurd (ground (arith, get-remove_self num m)))

-- A change of phase that claims no more.
pub phase-IsFlow :
    (m : Map ℕ OutgoingState) (num : ℕ) (r : Request) (next : Phase)
    → IsFlow m num r
    → ((state : OutgoingState) → get num m ≡ some state → IsPaced r state → IsClear next state)
    → IsFlow m num (record r { phase = next })
phase-IsFlow m num r next (fits, within, paced) clear = (
  fits,
  within,
  λ state e.
      let p = paced state e in
      record {
        acked = p.acked;
        counted = p.counted;
        in_flight = p.in_flight;
        clear = clear state e p;
      },
)

pub send_packet-IsTame :
    (p : Packet) (error : Text) (next : Phase) (num : ℕ) (r : Request) (s : Client)
    → IsFlow s.outgoing num r
    → ((state : OutgoingState)
        → get num s.outgoing ≡ some state
        → IsPaced r state
        → IsClear next state)
    → ((j : ℕ)
        → (num == j) ≡ false
        → get j (send_packet p error next num r s).1.outgoing ≡ get j s.outgoing)
      × IsFlow
          (send_packet p error next num r s).1.outgoing
          num
          (send_packet p error next num r s).0
unfolding send_packet cleanup_request enqueue
send_packet-IsTame p error next num r s flow clear = elim (Bool-cases s.queue_open) [
  | inl open_queue ↦ rw open_queue (λ j miss. refl, phase-IsFlow s.outgoing num r next flow clear)
  | inr gone ↦ rw gone (
    λ j miss. remove-other num j s.outgoing miss,
    removed-IsFlow num (record r { phase = finished (failed error) }) s.outgoing flow.0 flow.1,
  )
]

below_watermark :
    (num : ℕ) (s : Client) (state : OutgoingState)
    → over_watermark num s ≡ false
    → get num s.outgoing ≡ some state
    → state.sent < state.acknowledged + flow_control_watermark
unfolding over_watermark
below_watermark num s state low there =
    let e : leb flow_control_watermark (state.sent - state.acknowledged) ≡ false =
      sym (rw (there, over_watermark) refl) ∙ low in
    ground (arith, e)

pub check-IsTame : IsTame check
unfolding check cleanup_request
check-IsTame num r s flow = elim (Bool-cases (ltb r.offset (length r.body))) [
  | inr done ↦ rw done (λ j miss. refl, phase-IsFlow s.outgoing num r ending flow (λ state e p. tt))
  | inl more ↦ elim (Bool-cases s.closed) [
    | inl gone ↦ rw more (
        rw gone (
          λ j miss. remove-other num j s.outgoing miss,
          removed-IsFlow num _ s.outgoing flow.0 flow.1,
        ))
    | inr live ↦ elim (Bool-cases (over_watermark num s)) [
      | inl high ↦
          rw (more, check)
            (rw live (
              rw (high, check)
                (λ j miss. refl, phase-IsFlow s.outgoing num r sleeping flow (λ state e p. tt))))
      | inr low ↦
          rw (more, check)
            (rw live (
              rw (low, check)
                (
                  λ j miss. refl,
                  phase-IsFlow s.outgoing num r writing flow
                      (λ state e p. below_watermark num s state low e),
                )))
    ]
  ]
]

count-length :
    (r : Request)
    → r.offset ≤ length r.body
    → (length (next_chunk r) ≤ data_chunk_size) × (r.offset + length (next_chunk r) ≤ length r.body)
count-length r h =
    let e = length-take data_chunk_size (drop r.offset r.body) in
    let f = length-drop r.offset r.body in (omega (arith, e, f), omega (arith, e, f, h))

count-IsPaced :
    (r : Request) (state : OutgoingState)
    → r.phase ≡ counting
    → length r.body < u64_mod
    → r.offset ≤ length r.body
    → IsPaced r state
    → IsPaced
        (record r { offset = r.offset + length (next_chunk r); phase = checking })
        (record state { sent = add_u64 state.sent (length (next_chunk r)) })
count-IsPaced r state at fits within p =
    let clear : IsClear counting state = subst (λ t. IsClear t state) at p.clear in
    let len = count-length r within in
    record {
      acked = omega (arith, p.acked, p.counted, len.0, len.1, fits);
      counted = omega (arith, p.counted, len.1, fits);
      in_flight = omega (arith, clear, p.counted, len.0, len.1, fits);
      clear = tt;
    }

pub count-IsTame :
    (num : ℕ) (r : Request) (s : Client)
    → r.phase ≡ counting
    → IsFlow s.outgoing num r
    → ((j : ℕ) → (num == j) ≡ false → get j (count num r s).1.outgoing ≡ get j s.outgoing)
      × IsFlow (count num r s).1.outgoing num (count num r s).0
unfolding count
count-IsTame num r s at (fits, within, paced) = elim (Option-cases (get num s.outgoing)) [
  | inl gone ↦
      rw (gone, count)
        (
          λ j miss. refl,
          (fits, (count-length r within).1, λ state e. absurd (ground (arith, gone, e))),
        )
  | inr (state, there) ↦
      let next : OutgoingState = record state {
        sent = add_u64 state.sent (length (next_chunk r));
      } in
      rw (there, count)
        (
          λ j miss. get-other num j next s.outgoing miss,
          (
            fits,
            (count-length r within).1,
            λ state' e.
                subst
                  (IsPaced
                    (record r { offset = r.offset + length (next_chunk r); phase = checking }))
                  (same-some next state' (get num (insert num next s.outgoing))
                    (get-insert_self num next s.outgoing) e)
                  (count-IsPaced r state at fits within (paced state there)),
          ),
        )
]
