-- ===== src/Tests/Configured.antt =====
-- Configuration, addresses and pooled connections, on concrete inputs.
use scamp_rs.Client.Pool.{PooledConnection, Network, is_expected, get_connection}
use scamp_rs.Client.Pool.Verified.{IsVerified, get_connection-IsVerified}
use scamp_rs.Common.{ℕ, ◌≤◌, ◌≡◌, refl, true, false, some, [], ◌∷◌, Text, codes}
use scamp_rs.Common.Maps.{get, text_key}
use scamp_rs.Config.{parse_config, get_value}
use scamp_rs.Config.Lookup.{assignments, first_assigned, get_value-parse_config}
use scamp_rs.Crypto.{Openssl}
use scamp_rs.Discovery.Address.{socket_addr}
use scamp_rs.Discovery.Announcement.{ServiceInfo}
use scamp_rs.Server.Listener.{new_service, uri, random_port, try_ports, bind_pem}
use scamp_rs.Server.Listener.Bound.{bind_pem-socket_addr}
use scamp_rs.Strings.Decimal.{parse_u64, parse_unsigned, digits}
use scamp_rs.Strings.Fields.{split_from}
use scamp_rs.Strings.Lines.{lines}

abbrev settings : Text
settings = codes "bus.port = 1 # one\nbus.port = 2\nbus.0 = 3\n"

get_value-parse_config_example :
    get_value (codes "bus.port") (parse_config settings [])
    ≡ first_assigned (codes "bus.port") (assignments [] (lines settings))
unfolding split_from parse_u64 parse_unsigned digits
get_value-parse_config_example =
    get_value-parse_config settings (codes "bus.port") [] (refl, (refl, tt))

abbrev openssl : Openssl
openssl = record { sha1 = λ bs. bs; base64_decode = λ t. some t; verify = λ k m s. some true }

abbrev network : Network ℕ
network = record {
  parse_ip = λ t. some 1;
  handshake = λ addr. some (record { peer_certificate = some (0xAB ∷ []); closed = false });
}

abbrev info : ServiceInfo
info = record {
  identity = codes "svc";
  uri = codes "beepish+tls://10.0.0.1:30100";
  fingerprint = some (codes "AB");
}

get_connection-IsVerified_example :
    IsVerified openssl (λ u. some (codes "AB")) (get_connection openssl network info []).1
    × ((conn : PooledConnection)
        → (get_connection openssl network info []).0 ≡ some conn
        → (is_expected openssl info.fingerprint conn ≡ true)
          × (get info.uri (get_connection openssl network info []).1 ≡ some conn))
get_connection-IsVerified_example =
    get_connection-IsVerified openssl network (λ u. some (codes "AB")) info [] refl tt

bind_pem-socket_addr_example :
    (30100 ≤ 30107)
    × (30107 ≤ 30399)
    × (true ≡ true)
    × ((u : Text) × (uri
            (bind_pem
              (λ i. 7)
              (λ p. true)
              true
              (codes "10.0.0.1")
              []
              []
              (new_service (codes "svc") (codes "main") (codes "xx"))).1
          ≡ some u)
        × ((info : ServiceInfo)
            → info.uri ≡ u
            → socket_addr network.parse_ip info ≡ some (1, 30107)))
unfolding bind_pem try_ports random_port new_service
bind_pem-socket_addr_example =
    bind_pem-socket_addr network.parse_ip (λ i. 7) (λ p. true) true (codes "10.0.0.1") [] []
      (new_service (codes "svc") (codes "main") (codes "xx")) 30107 1 refl refl
      (refl, (refl, (refl, (refl, (refl, (refl, (refl, (refl, tt))))))))
      (refl, (refl, (refl, (refl, (refl, (refl, (refl, (refl, tt))))))))
