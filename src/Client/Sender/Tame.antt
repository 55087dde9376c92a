-- ===== src/Client/Sender/Tame.antt =====
-- client/connection.rs: a step of one request keeps its flow control and leaves the other outgoing states
-- alone.
use scamp_rs.Common.{ℕ, ◌≡◌, refl, subst, inl, inr, false, ◌==◌, Bool-cases, Option-cases}
use scamp_rs.Common.Maps.{get, number_key}
use scamp_rs.Client.{Client}
use scamp_rs.Client.Sender.{
  Phase, opening, checking, sleeping, writing, counting, ending, awaiting, finished, Request,
  cleanup_request, receive, resume, progress, expire, time_out,
}
use scamp_rs.Client.Sender.Flow.{
  IsClear, IsFlow, IsTame, send_packet-IsTame, check-IsTame, count-IsTame, removed-IsFlow,
  phase-IsFlow, remove-other,
}

receive-IsTame : IsTame receive
unfolding receive
receive-IsTame num r s flow = elim (Option-cases (get r.header.request_id s.delivered)) [
  | inl idle ↦ rw (idle, receive) (λ j miss. refl, flow)
  | inr (answer, come) ↦
      rw (come, receive)
        (
          λ j miss. remove-other num j s.outgoing miss,
          removed-IsFlow num _ s.outgoing flow.0 flow.1,
        )
]

resume-IsTame :
    (t : Phase) (num : ℕ) (r : Request) (s : Client)
    → r.phase ≡ t
    → IsFlow s.outgoing num r
    → ((j : ℕ) → (num == j) ≡ false → get j (resume t num r s).1.outgoing ≡ get j s.outgoing)
      × IsFlow (resume t num r s).1.outgoing num (resume t num r s).0
unfolding resume
resume-IsTame opening num r s at flow =
    send_packet-IsTame _ _ checking num r s flow (λ state e p. tt)
resume-IsTame checking num r s at flow = check-IsTame num r s flow
resume-IsTame sleeping num r s at flow = elim (Bool-cases s.permit) [
  | inl woken ↦
      rw woken (λ j miss. refl, phase-IsFlow s.outgoing num r checking flow (λ state e p. tt))
  | inr still ↦ rw still (λ j miss. refl, flow)
]
resume-IsTame writing num r s at flow =
    send_packet-IsTame _ _ counting num r s flow
      (λ state e p. subst (λ t. IsClear t state) at p.clear)
resume-IsTame counting num r s at flow = count-IsTame num r s at flow
resume-IsTame ending num r s at flow =
    send_packet-IsTame _ _ awaiting num r s flow (λ state e p. tt)
resume-IsTame awaiting num r s at flow = receive-IsTame num r s flow
resume-IsTame (finished result) num r s at flow = (λ j miss. refl, flow)

pub progress-IsTame : IsTame progress
unfolding progress
progress-IsTame num r s flow = resume-IsTame r.phase num r s refl flow

expire-IsTame :
    (t : Phase) (num : ℕ) (r : Request) (s : Client)
    → IsFlow s.outgoing num r
    → ((j : ℕ) → (num == j) ≡ false → get j (expire t num r s).1.outgoing ≡ get j s.outgoing)
      × IsFlow (expire t num r s).1.outgoing num (expire t num r s).0
unfolding expire cleanup_request
expire-IsTame awaiting num r s flow =
    (λ j miss. remove-other num j s.outgoing miss, removed-IsFlow num _ s.outgoing flow.0 flow.1)
expire-IsTame opening num r s flow = (λ j miss. refl, flow)
expire-IsTame checking num r s flow = (λ j miss. refl, flow)
expire-IsTame sleeping num r s flow = (λ j miss. refl, flow)
expire-IsTame writing num r s flow = (λ j miss. refl, flow)
expire-IsTame counting num r s flow = (λ j miss. refl, flow)
expire-IsTame ending num r s flow = (λ j miss. refl, flow)
expire-IsTame (finished result) num r s flow = (λ j miss. refl, flow)

pub time_out-IsTame : IsTame time_out
unfolding time_out
time_out-IsTame num r s flow = expire-IsTame r.phase num r s flow
