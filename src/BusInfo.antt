-- ===== src/BusInfo.antt =====
-- bus_info.rs: the addresses that a service binds to. How the interfaces are listed is the system's.
use scamp_rs.Common.{
  ℕ, not, ◌&&◌, ◌||◌, Option, none, some, List, [], ◌∷◌, map, joined, Text, codes, length, drop,
  is_empty, retain, starts_with, unwrap_or, ltb, leb, ◌==◌, if◌then◌else◌, ◌>>=◌,
}
use scamp_rs.Common.Maps.{Map, get, text_key}
use scamp_rs.Config.{ConfElement, get_value}
use scamp_rs.Strings.Decimal.{parse_unsigned, digits}
use scamp_rs.Strings.Fields.{split}
use scamp_rs.Strings.Lines.{trim}

-- `Ipv4Addr`, by its octets.
pub record Ipv4 : Type 0 where
  pub first : ℕ
  pub second : ℕ
  pub third : ℕ
  pub fourth : ℕ

-- An octet: one to three digits, without a leading zero, up to 255.
unfoldable pub parse_octet : Text → Option ℕ
unfolding digits
parse_octet [] = none
parse_octet (c ∷ s) =
    if ltb 2 (length s) || (c == b'0' && not (is_empty s)) then none else digits 255 0 (c ∷ s)

octets_of : List Text → Option Ipv4
unfolding parse_octet
octets_of (a ∷ b ∷ c ∷ d ∷ []) = do
  first ← parse_octet a
  second ← parse_octet b
  third ← parse_octet c
  fourth ← parse_octet d
  some (record { first = first; second = second; third = third; fourth = fourth })
octets_of parts = none

-- `parse::<Ipv4Addr>`
unfoldable pub parse_ipv4 : Text → Option Ipv4
unfolding octets_of split
parse_ipv4 s = octets_of (split 0x2E s)

-- `addrs.extend(ips)`, `addrs.push(ip)`, or a warning.
unfoldable pub resolve_part : Map Text (List Ipv4) → Text → List Ipv4
unfolding parse_ipv4
resolve_part interfaces part =
    let part = trim part in
    if starts_with (codes "if:") part
    then unwrap_or (get (drop 3 part) interfaces) []
    else elim (parse_ipv4 part) [ some ip ↦ ip ∷ [] | none ↦ [] ]

-- `into_iter().collect()`
abbrev pub list_of : Option Ipv4 → List Ipv4
list_of none = []
list_of (some ip) = ip ∷ []

unfoldable pub resolve_addr_list : Option Text → Map Text (List Ipv4) → Option Ipv4 → List Ipv4
unfolding resolve_part
resolve_addr_list none interfaces default_ip = list_of default_ip
resolve_addr_list (some raw) interfaces default_ip =
    let addrs = joined (map (λ p. resolve_part interfaces p) (split 0x2C raw)) in
    if is_empty addrs then list_of default_ip else addrs

-- The key of the sort.
unfoldable pub rank : Ipv4 → ℕ
rank ip =
    if ip.first == 10
    then 0
    else if ip.first == 192 && ip.second == 168
    then 1
    else if ip.first == 172 && (leb 16 ip.second && leb ip.second 31)
    then 2
    else 3

-- The head of the list once it is sorted by the key: the first of the least key.
unfoldable pub least : Ipv4 → List Ipv4 → Ipv4
unfolding rank
least best [] = best
least best (ip ∷ ips) = least (if ltb (rank ip) (rank best) then ip else best) ips

first_least : List Ipv4 → Option Ipv4
unfolding least
first_least [] = none
first_least (ip ∷ ips) = some (least ip ips)

-- The interfaces stand in the order in which the hash map gives them.
unfoldable pub find_default_ip : Map Text (List Ipv4) → Option Ipv4
unfolding first_least
find_default_ip interfaces =
    first_least
      (retain (λ ip. not (ip.first == 127)) (joined (map (λ (name, ips). ips) interfaces)))

pub record BusInfo : Type 0 where
  pub service_addrs : List Ipv4
  pub discovery_addrs : List Ipv4
  pub group : Ipv4
  pub port : ℕ

-- `BusInfo::from_config`
unfoldable pub from_config : ConfElement → Map Text (List Ipv4) → BusInfo
unfolding find_default_ip resolve_addr_list get_value
from_config config interfaces =
    let default_ip = find_default_ip interfaces in
    record {
      service_addrs =
          resolve_addr_list (get_value (codes "bus.address") config) interfaces default_ip;
      discovery_addrs =
          resolve_addr_list (get_value (codes "discovery.address") config) interfaces default_ip;
      group =
          unwrap_or (do s ← get_value (codes "discovery.multicast_address") config; parse_ipv4 s)
            (record { first = 239; second = 63; third = 248; fourth = 106 });
      port =
          unwrap_or (do s ← get_value (codes "discovery.port") config; parse_unsigned 0xFFFF s)
            5555;
    }

-- `BusInfo::service_addr`
unfoldable pub service_addr : BusInfo → Ipv4
service_addr info = elim info.service_addrs [
  | [] ↦ record { first = 0; second = 0; third = 0; fourth = 0 }
  | ip ∷ ips ↦ ip
]
