-- ===== src/Server/Dispatch/Denial.antt =====
-- server_connection.rs, `dispatch_and_reply`: which requests reach a handler.
use scamp_rs.Common.{
  ◌≡◌, refl, ◌⊎◌, inl, inr, Bool, true, false, Option, none, some, ◌∷◌, Text, arith, is_empty,
  Option-cases,
}
use scamp_rs.Common.Maps.{get, text_key}
use scamp_rs.Proto.Header.{PacketHeader}
use scamp_rs.Server.{
  RegisteredAction, Access, granted, denied, Service, IncomingRequest, Connection,
}
use scamp_rs.Server.Dispatch.{action_key, is_noauth, refuse, request_of, invoke, dispatch_and_reply}
use scamp_rs.Server.Reply.Packets.{send_reply-keeps}

-- What lets a request through: no checker, an action for everybody, or a ticket that the checker
-- grants.
abbrev pub IsPermitted : Option (Text → Text → Access) → Bool → PacketHeader → Type 0
IsPermitted authz noauth h =
    (authz ≡ none)
    ⊎ ((noauth ≡ true)
        ⊎ ((check : Text → Text → Access) × (authz ≡ some check)
            × (is_empty h.ticket ≡ false)
            × (check h.action h.ticket ≡ granted)))

Access-cases : (a : Access) → (a ≡ granted) ⊎ ((e : Text) × (a ≡ denied e))
Access-cases granted = inl refl
Access-cases (denied e) = inr (e, refl)

refuse-none :
    (authz : Option (Text → Text → Access)) (noauth : Bool) (h : PacketHeader)
    → refuse authz noauth h ≡ none
    → IsPermitted authz noauth h
unfolding refuse
refuse-none none noauth h e = inl refl
refuse-none (some check) true h e = inr (inl refl)
refuse-none (some check) false h e = elim (Access-cases (check h.action h.ticket)) [
  | inl yes_granted ↦ inr (inr (check, refl, ground arith, yes_granted))
  | inr (t, refused) ↦ absurd (ground arith)
]

invoke-calls :
    (svc : Service) (msg : IncomingRequest) (found : Option RegisteredAction) (s : Connection)
    → ((invoke svc msg found s).calls ≡ s.calls)
      ⊎ ((a : RegisteredAction) × (found ≡ some a)
          × ((invoke svc msg found s).calls ≡ request_of msg ∷ s.calls))
unfolding invoke
invoke-calls svc msg none s = inl (send_reply-keeps svc.codec _ msg.header.request_id s).0
invoke-calls svc msg (some a) s =
    inr (a, refl, (send_reply-keeps svc.codec _ msg.header.request_id _).0)

-- A message reaches a handler at most once, as the request that its header and body make, and only if
-- the action is registered and the request is permitted: no checker is set, the action has the flag
-- `noauth`, or the ticket is not empty and the checker grants it.
pub dispatch_and_reply-calls :
    (svc : Service) (msg : IncomingRequest) (s : Connection)
    → ((dispatch_and_reply svc msg s).calls ≡ s.calls)
      ⊎ ((a : RegisteredAction) × (get (action_key svc msg.header) svc.actions ≡ some a)
          × ((dispatch_and_reply svc msg s).calls ≡ request_of msg ∷ s.calls)
          × IsPermitted svc.authz (is_noauth svc msg.header) msg.header)
unfolding dispatch_and_reply
dispatch_and_reply-calls svc msg s =
    let key = action_key svc msg.header in
    let verdict = refuse svc.authz (is_noauth svc msg.header) msg.header in
    elim (Option-cases verdict) [
      | inr (r, refused) ↦
          rw (refused, dispatch_and_reply)
            (inl (send_reply-keeps svc.codec r msg.header.request_id s).0)
      | inl free ↦ elim (invoke-calls svc msg (get key svc.actions) s) [
        | inl kept ↦ rw (free, dispatch_and_reply) (inl kept)
        | inr (a, found, called) ↦
            rw (free, dispatch_and_reply) (inr (a, found, called, refuse-none _ _ _ free))
      ]
    ]
