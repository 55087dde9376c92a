-- ===== src/Requester.antt =====
-- scamp/src/requester.rs: the lookup of a service, the request to it, and one retry. `BeepishClient`'s
-- request is a parameter: what the transport answers to the first and to the second try.
pub mod Retry
use scamp_rs.Client.{ScampResponse}
use scamp_rs.Common.{
  ℕ, ◌+◌, Bool, true, false, ◌||◌, Option, none, some, [], Text, Bytes, codes, same, if◌then◌else◌,
  ◌>>=◌, unwrap_or,
}
use scamp_rs.Discovery.Registry.{
  Outside, ActionEntry, ServiceRegistry, find_action_with_envelope, mark_failed, timeout_secs,
}
use scamp_rs.Json.{get_member, as_bool}
use scamp_rs.Proto.Header.{EnvelopeFormat, json, json_store, other, PacketHeader}

abbrev pub default_rpc_timeout_secs : ℕ
default_rpc_timeout_secs = 75

pub record RequestOpts : Type 0 where
  pub action : Text
  pub version : ℕ
  pub body : Bytes
  pub sector : Text
  pub envelope : EnvelopeFormat
  pub ticket : Text
  pub timeout_secs : Option ℕ

unfoldable pub envelope_str : EnvelopeFormat → Text
envelope_str json = codes "json"
envelope_str json_store = codes "jsonstore"
envelope_str (other s) = s

-- `error_data.dispatch_failure` is true, or the error code is "dispatch_failure".
unfoldable pub is_dispatch_failure : PacketHeader → Bool
is_dispatch_failure h =
    unwrap_or (h.error_data >>= get_member (codes "dispatch_failure") >>= as_bool) false
    || elim h.error_code [ none ↦ false | some code ↦ same code (codes "dispatch_failure") ]

-- A response without a transport error.
unfoldable pub checked : ScampResponse → Option ScampResponse
checked resp = elim resp.error [ none ↦ some resp | some err ↦ none ]

-- The time allowed: the caller's, or the action's, or the default.
unfoldable pub time_allowed : {F : Type 0} → RequestOpts → ActionEntry F → ℕ
time_allowed opts entry =
    unwrap_or (elim opts.timeout_secs [ some secs ↦ some secs | none ↦ timeout_secs entry ])
      default_rpc_timeout_secs

-- What one try meets: the clock, the random number of the choice, and the transport.
pub record Try (F : Type 0) : Type 0 where
  pub now : ℕ
  pub random : ℕ
  pub send : ActionEntry F → RequestOpts → ℕ → Option ScampResponse

module _ {F : Type 0} (o : Outside F) where
  unfoldable pub find_entry : ℕ → ℕ → RequestOpts → ServiceRegistry F → Option (ActionEntry F)
  find_entry now random opts =
      find_action_with_envelope o now random opts.sector opts.action opts.version
        (envelope_str opts.envelope)

  unfoldable pub dispatch_once : Try F → RequestOpts → ServiceRegistry F → Option ScampResponse
  unfolding find_entry checked time_allowed
  dispatch_once t opts r = do
    entry ← find_entry t.now t.random opts r
    resp ← t.send entry opts (time_allowed opts entry)
    checked resp

  -- The service that is chosen with `random` at the time `now` is marked.
  unfoldable pub mark_chosen : ℕ → ℕ → RequestOpts → ServiceRegistry F → ServiceRegistry F
  mark_chosen now random opts r = elim (find_entry now random opts r) [
    | none ↦ r
    | some entry ↦ mark_failed o now entry.service_info.identity r
  ]

  -- `request_with_opts`: the two tries, and between them the time and the random number of the lookup
  -- that marks a service.
  unfoldable pub request_with_opts :
      Try F
      → ℕ
      → ℕ
      → Try F
      → RequestOpts
      → ServiceRegistry F
      → Option ScampResponse × ServiceRegistry F
  unfolding dispatch_once mark_chosen is_dispatch_failure
  request_with_opts first now random second opts r = elim (dispatch_once first opts r) [
    | none ↦ (none, r)
    | some resp ↦
        let marked = mark_chosen now random opts r in
        if is_dispatch_failure resp.header
        then (dispatch_once second opts marked, marked)
        else (some resp, r)
  ]

  -- `request`: a request with the options' defaults in the sector of the requester.
  unfoldable pub request :
      Try F
      → ℕ
      → ℕ
      → Try F
      → Text
      → Text
      → ℕ
      → Bytes
      → ServiceRegistry F
      → Option ScampResponse × ServiceRegistry F
  unfolding request_with_opts
  request first now random second default_sector action version body =
      request_with_opts first now random second (record {
        action = action;
        version = version;
        body = body;
        sector = default_sector;
        envelope = json;
        ticket = [];
        timeout_secs = none;
      })
