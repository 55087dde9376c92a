-- ===== src/Discovery/Address.antt =====
-- discovery/service_info/mod.rs: the socket address in a URI.
use scamp_rs.Common.{
  ℕ, zero, suc, ◌-◌, Option, some, List, [], ◌∷◌, ◌++◌, Text, codes, length, get_elem?, starts_with,
  if◌then◌else◌, ◌>>=◌,
}
use scamp_rs.Discovery.Announcement.{ServiceInfo}
use scamp_rs.Strings.Decimal.{parse_unsigned}
use scamp_rs.Strings.Fields.{split}

-- `str::split` at a text; `skip` counts the characters of a separator that are still to pass over.
unfoldable pub split_text_from : Text → ℕ → Text → Text → List Text
split_text_from sep skip part [] = part ∷ []
split_text_from sep (suc skip) part (c ∷ s) = split_text_from sep skip part s
split_text_from sep zero part (c ∷ s) =
    let cut = split_text_from sep (length sep - 1) [] s in
    let more = split_text_from sep 0 (part ++ c ∷ []) s in
    if starts_with sep (c ∷ s) then part ∷ cut else more

-- `ServiceInfo::socket_addr`, with the parser of an IP address; every error is `none`.
unfoldable pub socket_addr : {Ip : Type 0} → (Text → Option Ip) → ServiceInfo → Option (Ip × ℕ)
unfolding split_text_from
socket_addr parse_ip info = do
  addr ← get_elem? (split_text_from (codes "://") 0 [] info.uri) 1
  host ← get_elem? (split 0x3A addr) 0
  port ← get_elem? (split 0x3A addr) 1
  ip ← parse_ip host
  number ← parse_unsigned 0xFFFF port
  some (ip, number)
