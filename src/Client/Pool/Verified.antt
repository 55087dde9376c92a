-- ===== src/Client/Pool/Verified.antt =====
-- transport/beepish/client/connection.rs: whose certificate a pooled connection has.
use mathlib.Core.Option.{some-injective}
use scamp_rs.Client.Pool.{
  PooledConnection, Network, is_expected, connect, open_connection, get_connection,
}
use scamp_rs.Common.{
  ◌≡◌, sym, subst, ◌∙◌, true, Option, some, Text, Bool-cases, Option-cases, inl, inr, arith,
  if◌then◌else◌,
}
use scamp_rs.Common.Maps.{
  Map, get, remove, text_key, Entries, Entries-get, Entries-insert, Entries-remove, get-insert_self,
}
use scamp_rs.Crypto.{Openssl}
use scamp_rs.Discovery.Announcement.{ServiceInfo}
use scamp_rs.Discovery.Address.{socket_addr}

-- Every connection of the pool has the fingerprint that is announced for its URI.
abbrev pub IsVerified : Openssl → (Text → Option Text) → Map Text PooledConnection → Type 0
IsVerified c announced = Entries (λ uri conn. is_expected c (announced uri) conn ≡ true)

module _ {Ip : Type 0} (c : Openssl) (network : Network Ip) where
  connect-is_expected :
      (info : ServiceInfo) (fp : Option Text) (conn : PooledConnection)
      → connect c network info fp ≡ some conn
      → is_expected c fp conn ≡ true
  unfolding connect
  connect-is_expected info fp conn e = elim (Option-cases (socket_addr network.parse_ip info)) [
    | inl unknown ↦ absurd (ground (arith, (rw (unknown, connect) at e)))
    | inr (addr, known) ↦ elim (Option-cases (network.handshake addr)) [
      | inl silent ↦ absurd (ground (arith, (rw (known, silent, connect) at e)))
      | inr (peer, answered) ↦ elim (Bool-cases (is_expected c fp peer)) [
        | inl fits ↦
            subst (λ p. is_expected c fp p ≡ true)
              (some-injective _ _ (rw (known, answered, fits, connect) at e)) fits
        | inr wrong ↦ absurd (ground (arith, (rw (known, answered, wrong, connect) at e)))
      ]
    ]
  ]

  -- What is handed out is verified and stands in the pool, which stays verified.
  abbrev Good :
      (Text → Option Text)
      → ServiceInfo
      → Option PooledConnection × Map Text PooledConnection
      → Type 0
  Good announced info (found, pool) =
      IsVerified c announced pool
      × ((conn : PooledConnection)
          → found ≡ some conn
          → (is_expected c info.fingerprint conn ≡ true) × (get info.uri pool ≡ some conn))

  open_connection-IsVerified :
      (announced : Text → Option Text) (info : ServiceInfo) (pool : Map Text PooledConnection)
      → info.fingerprint ≡ announced info.uri
      → IsVerified c announced pool
      → Good announced info (open_connection c network info pool)
  unfolding open_connection
  open_connection-IsVerified announced info pool honest h =
      elim (Option-cases (connect c network info info.fingerprint)) [
        | inl failed ↦ rw (failed, open_connection) (h, λ conn e. absurd (ground (arith, e)))
        | inr (fresh, opened) ↦
            let fits : (is_expected c info.fingerprint fresh ≡ true) =
              connect-is_expected info info.fingerprint fresh opened in
            rw (opened, open_connection)
              (
                Entries-insert (λ uri conn. is_expected c (announced uri) conn ≡ true) info.uri
                    fresh pool (subst (λ fp. is_expected c fp fresh ≡ true) honest fits) h,
                λ conn e. (
                  subst (λ p. is_expected c info.fingerprint p ≡ true) (some-injective _ _ e) fits,
                  get-insert_self info.uri fresh pool ∙ e,
                ),
              )
      ]

  -- A pool whose connections have the fingerprints announced for their URIs stays one when a connection
  -- is asked for, and the connection that is handed out has the service's fingerprint and stands in the
  -- pool, whether it was there or was opened. The condition: the service's fingerprint is the one that
  -- is announced for its URI.
  pub get_connection-IsVerified :
      (announced : Text → Option Text) (info : ServiceInfo) (pool : Map Text PooledConnection)
      → info.fingerprint ≡ announced info.uri
      → IsVerified c announced pool
      → IsVerified c announced (get_connection c network info pool).1
        × ((conn : PooledConnection)
            → (get_connection c network info pool).0 ≡ some conn
            → (is_expected c info.fingerprint conn ≡ true)
              × (get info.uri (get_connection c network info pool).1 ≡ some conn))
  unfolding get_connection
  get_connection-IsVerified announced info pool honest h = elim (Option-cases (get info.uri pool)) [
    | inl missing ↦
        rw (missing, get_connection) (open_connection-IsVerified announced info pool honest h)
    | inr (old, there) ↦ elim (Bool-cases old.closed) [
      | inl is_closed ↦
          rw (there, is_closed, get_connection)
            (open_connection-IsVerified announced info (remove info.uri pool) honest (
              Entries-remove (λ uri conn. is_expected c (announced uri) conn ≡ true) info.uri pool
                h))
      | inr is_open ↦
          let fits : (is_expected c info.fingerprint old ≡ true) =
            subst (λ fp. is_expected c fp old ≡ true) (sym honest)
              (Entries-get (λ uri conn. is_expected c (announced uri) conn ≡ true) info.uri old pool
                h there) in
          rw (there, get_connection)
            (subst
              (λ b. Good announced info (
                if b
                then open_connection c network info (remove info.uri pool)
                else (some old, pool)))
              (sym is_open)
              (
                h,
                λ conn e. (
                  subst (λ p. is_expected c info.fingerprint p ≡ true) (some-injective _ _ e) fits,
                  there ∙ e,
                ),
              ))
    ]
  ]
