-- ===== src/Discovery/Registry/Replay.antt =====
-- discovery/service_registry.rs: which announcements `inject_packet` takes.
use scamp_rs.Auth.Services.{AuthorizedServices}
use scamp_rs.Common.{
  ℕ, ◌≡◌, refl, ◌⊎◌, inl, inr, true, false, some, List, Text, Bool-cases, Option-cases,
}
use scamp_rs.Common.Maps.{Map, get, text_key, get-insert_self}
use scamp_rs.Discovery.Announcement.{AnnouncementPacket, AnnouncementBody}
use scamp_rs.Discovery.Registry.{
  Outside, ServiceRegistry, ActionEntry, inject_packet, accept, dedup_key, fingerprint_of,
  drop_entries,
}

module _ {F : Type 0} (o : Outside F) where
  -- An announcement to leave: its signature is bad, it is too old, or one at least as new was taken.
  abbrev pub IsRejected : ℕ → AnnouncementPacket F → ServiceRegistry F → Type 0
  IsRejected now packet r =
      (o.signature_is_valid packet ≡ false)
      ⊎ ((o.outlived now packet.body.params.interval packet.body.params.timestamp ≡ true)
          ⊎ ((prev : F) × (get (dedup_key o packet.body) r.seen_timestamps ≡ some prev)
              × (o.at_most packet.body.params.timestamp prev ≡ true)))

  -- An announcement with a bad signature, one that has outlived its interval, and one that is not newer
  -- than the last one taken of that service and certificate leave the registry as it is.
  pub inject_packet-IsRejected :
      (now : ℕ) (packet : AnnouncementPacket F) (auth : AuthorizedServices) (r : ServiceRegistry F)
      → IsRejected now packet r
      → inject_packet o now packet auth r ≡ r
  unfolding inject_packet
  inject_packet-IsRejected now packet auth r (inl bad) = rw bad refl
  inject_packet-IsRejected now packet auth r (inr (inl old)) =
      elim (Bool-cases (o.signature_is_valid packet)) [
        | inl good ↦ rw good (rw old refl)
        | inr bad ↦ rw bad refl
      ]
  inject_packet-IsRejected now packet auth r (inr (inr (prev, seen, stale))) =
      elim (Bool-cases (o.signature_is_valid packet)) [
        | inr bad ↦ rw bad refl
        | inl good ↦
            elim (Bool-cases
              (o.outlived now packet.body.params.interval packet.body.params.timestamp)) [
                | inl old ↦ rw good (rw old refl)
                | inr fresh ↦ rw good (rw fresh (rw (seen, inject_packet) (rw stale refl)))
              ]
      ]

  accept-seen :
      (auth : AuthorizedServices) (body : AnnouncementBody F)
      (actions : Map Text (List (ActionEntry F))) (r : ServiceRegistry F)
      → get (dedup_key o body) (accept o auth body actions r).seen_timestamps
        ≡ some body.params.timestamp
  unfolding accept
  accept-seen auth body actions r =
      get-insert_self (dedup_key o body) body.params.timestamp r.seen_timestamps

  taken_seen :
      (now : ℕ) (packet : AnnouncementPacket F) (auth : AuthorizedServices) (r : ServiceRegistry F)
      → IsRejected now packet r
        ⊎ (get (dedup_key o packet.body) (inject_packet o now packet auth r).seen_timestamps
            ≡ some packet.body.params.timestamp)
  unfolding inject_packet
  taken_seen now packet auth r = elim (Bool-cases (o.signature_is_valid packet)) [
    | inr bad ↦ inl (inl bad)
    | inl good ↦
        elim (Bool-cases
          (o.outlived now packet.body.params.interval packet.body.params.timestamp)) [
            | inl old ↦ inl (inr (inl old))
            | inr fresh ↦ elim (Option-cases (get (dedup_key o packet.body) r.seen_timestamps)) [
              | inl new ↦ inr (
                  rw good (
                    rw fresh
                      (rw (new, inject_packet) (accept-seen auth packet.body r.actions_by_key r))))
              | inr (prev, seen) ↦ elim (Bool-cases (o.at_most packet.body.params.timestamp prev)) [
                | inl stale ↦ inl (inr (inr (prev, seen, stale)))
                | inr newer ↦
                    let kept =
                      drop_entries o packet.body.info.identity (fingerprint_of o packet.body)
                        r.actions_by_key in
                    inr (
                      rw good (
                        rw fresh (
                          rw (seen, inject_packet)
                            (rw newer (accept-seen auth packet.body kept r)))))
              ]
            ]
          ]
  ]

  -- An announcement is rejected, or the same one a second time changes nothing, at whatever time it
  -- comes. Its timestamp compares with itself, which fails for a NaN alone.
  pub inject_packet-twice :
      (now later : ℕ) (packet : AnnouncementPacket F) (auth : AuthorizedServices)
      (r : ServiceRegistry F)
      → o.at_most packet.body.params.timestamp packet.body.params.timestamp ≡ true
      → IsRejected now packet r
        ⊎ (inject_packet o later packet auth (inject_packet o now packet auth r)
            ≡ inject_packet o now packet auth r)
  inject_packet-twice now later packet auth r reflexive = elim (taken_seen now packet auth r) [
    | inl rejected ↦ inl rejected
    | inr seen ↦ inr (
        inject_packet-IsRejected later packet auth (inject_packet o now packet auth r)
          (inr (inr (packet.body.params.timestamp, seen, reflexive))))
  ]
