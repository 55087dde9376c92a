-- ===== src/Client/Pool.antt =====
-- transport/beepish/client/connection.rs: the pool of connections, and the check of the certificate when
-- one is opened.
pub mod Verified
use scamp_rs.Common.{
  ℕ, Bool, true, false, Option, none, some, List, Text, Bytes, same, if◌then◌else◌,
}
use scamp_rs.Common.Maps.{Map, get, insert, remove, text_key}
use scamp_rs.Crypto.{Openssl, cert_sha1_fingerprint}
use scamp_rs.Discovery.Address.{socket_addr}
use scamp_rs.Discovery.Announcement.{ServiceInfo}

-- A connection of the pool: the certificate that its peer presented, if any, and its closed flag.
pub record PooledConnection : Type 0 where
  pub peer_certificate : Option Bytes
  pub closed : Bool

-- What the network answers: an address whose handshake succeeds gives a connection.
pub record Network (Ip : Type 0) : Type 0 where
  pub parse_ip : Text → Option Ip
  pub handshake : Ip × ℕ → Option PooledConnection

-- Whether the peer has the expected fingerprint; without an expectation there is no check.
unfoldable pub is_expected : Openssl → Option Text → PooledConnection → Bool
unfolding cert_sha1_fingerprint
is_expected c none conn = true
is_expected c (some expected_fp) conn = elim conn.peer_certificate [
  | none ↦ false
  | some peer_der ↦ same (cert_sha1_fingerprint c peer_der) expected_fp
]

module _ {Ip : Type 0} (c : Openssl) (network : Network Ip) where
  -- `ConnectionHandle::connect`; every error is `none`.
  unfoldable pub connect : ServiceInfo → Option Text → Option PooledConnection
  unfolding is_expected socket_addr
  connect info expected_fingerprint = elim (socket_addr network.parse_ip info) [
    | none ↦ none
    | some addr ↦ elim (network.handshake addr) [
      | none ↦ none
      | some conn ↦ if is_expected c expected_fingerprint conn then some conn else none
    ]
  ]

  -- The connection that is opened, and the pool with it.
  unfoldable pub open_connection :
      ServiceInfo → Map Text PooledConnection → Option PooledConnection × Map Text PooledConnection
  unfolding connect
  open_connection info connections = elim (connect info info.fingerprint) [
    | none ↦ (none, connections)
    | some conn ↦ (some conn, insert info.uri conn connections)
  ]

  -- `BeepishClient::get_connection`
  unfoldable pub get_connection :
      ServiceInfo → Map Text PooledConnection → Option PooledConnection × Map Text PooledConnection
  unfolding open_connection
  get_connection info connections = elim (get info.uri connections) [
    | none ↦ open_connection info connections
    | some conn ↦
        if conn.closed
        then open_connection info (remove info.uri connections)
        else (some conn, connections)
  ]
