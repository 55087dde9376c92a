-- ===== src/Server/Listener.antt =====
-- service/listener.rs: a service with its actions, the port it binds to, its URI, and what it announces.
-- The accept loop and TLS are not modelled.
pub mod Bound
use scamp_rs.Common.{
  ℕ, zero, suc, ◌+◌, ◌%◌, Bool, true, false, Option, none, some, List, [], ◌∷◌, ◌++◌, map, Text,
  Bytes, codes, unwrap_or, ltb, if◌then◌else◌, ◌>>=◌,
}
use scamp_rs.Common.Maps.{Map, insert, text_key}
use scamp_rs.Server.{RegisteredAction, ScampRequest, ScampReply, Access}
use scamp_rs.Server.Announce.{Crates}
use scamp_rs.Server.Announce as Announce
use scamp_rs.Server.Announce.Actions.{ActionInfo}
use scamp_rs.Server.Dispatch.{i32_text}
use scamp_rs.Strings.Decimal.{to_string}

-- `ScampService`; of its TLS acceptor and its listener only the address is kept: the text of the IP
-- address, and the port.
pub record ScampService : Type 0 where
  pub name : Text
  pub identity : Text
  pub sector : Text
  pub envelopes : List Text
  pub actions : Map Text RegisteredAction
  pub address : Option (Text × ℕ)
  pub key_pem : Option Bytes
  pub cert_pem : Option Bytes
  pub announce_ip : Option Text
  pub authz : Option (Text → Text → Access)

-- `ScampService::new`, with the base64 text of the random bytes.
unfoldable pub new_service : Text → Text → Text → ScampService
new_service name sector identity_suffix = record {
  name = name;
  identity = name ++ 0x3A ∷ identity_suffix;
  sector = sector;
  envelopes = codes "json" ∷ [];
  actions = [];
  address = none;
  key_pem = none;
  cert_pem = none;
  announce_ip = none;
  authz = none;
}

unfoldable pub uri_of : Option Text → Text × ℕ → Text
uri_of announce_ip (ip, port) =
    codes "beepish+tls://" ++ (unwrap_or announce_ip ip ++ 0x3A ∷ to_string port)

unfoldable pub uri : ScampService → Option Text
unfolding uri_of
uri svc = elim svc.address [ none ↦ none | some addr ↦ some (uri_of svc.announce_ip addr) ]

-- `set_announce_ip`, `set_authz`.
abbrev pub set_announce_ip : Text → ScampService → ScampService
set_announce_ip ip svc = record svc { announce_ip = some ip }

abbrev pub set_authz : (Text → Text → Access) → ScampService → ScampService
set_authz authz svc = record svc { authz = some authz }

-- The key of an action.
unfoldable pub registration_key : (Text → Text) → Text → ℕ → Text
unfolding i32_text
registration_key to_lowercase action version =
    to_lowercase action ++ (codes ".v" ++ i32_text version)

unfoldable pub register_with_flags :
    (Text → Text) → Text → ℕ → List Text → (ScampRequest → ScampReply) → ScampService → ScampService
unfolding registration_key
register_with_flags to_lowercase action version flags handler svc = record svc {
  actions =
      insert (registration_key to_lowercase action version)
        (record { name = action; version = version; flags = flags; handler = handler }) svc.actions;
}

unfoldable pub register :
    (Text → Text) → Text → ℕ → (ScampRequest → ScampReply) → ScampService → ScampService
unfolding register_with_flags
register to_lowercase action version handler =
    register_with_flags to_lowercase action version [] handler

-- `ActionInfo::from`, of handler.rs.
abbrev pub action_info : RegisteredAction → ActionInfo
action_info ra = record { name = ra.name; version = ra.version; flags = ra.flags }

unfoldable pub actions_snapshot : ScampService → List ActionInfo
actions_snapshot svc = map (λ (key, ra). action_info ra) svc.actions

-- A port from 30100 to 30399.
unfoldable pub random_port : ℕ → ℕ
random_port random = 30100 + random % 300

-- `bind_tries` random ports at most: the first that can be bound. `random i` is the number of the
-- try `i`.
unfoldable pub try_ports : (ℕ → ℕ) → (ℕ → Bool) → ℕ → ℕ → Option ℕ
unfolding random_port
try_ports random can_bind zero i = none
try_ports random can_bind (suc tries) i =
    let port = random_port (random i) in
    let rest = try_ports random can_bind tries (suc i) in if can_bind port then some port else rest

-- `bind_pem`, where `tls` tells whether the identity and the acceptor can be built; the key and the
-- certificate are kept even when it fails.
unfoldable pub bind_pem :
    (ℕ → ℕ) → (ℕ → Bool) → Bool → Text → Bytes → Bytes → ScampService → Option ℕ × ScampService
unfolding try_ports
bind_pem random can_bind tls bind_ip key_pem cert_pem svc =
    let svc = record svc { key_pem = some key_pem; cert_pem = some cert_pem } in
    let found = try_ports random can_bind 20 0 in
    if tls
    then elim found [
      | none ↦ (none, svc)
      | some port ↦ (some port, record svc { address = some (bind_ip, port) })
    ]
    else (none, svc)

-- The service's `build_announcement_packet` at the time `timestamp`.
unfoldable pub announcement_of : Crates → Bool → ℕ → ScampService → Option Bytes
unfolding Announce.build_announcement_packet uri actions_snapshot
announcement_of o active timestamp svc = do
  key_pem ← svc.key_pem
  cert_pem ← svc.cert_pem
  address ← uri svc
  Announce.build_announcement_packet o svc.identity svc.sector svc.envelopes address
      (actions_snapshot svc) key_pem cert_pem 1 5 active timestamp
