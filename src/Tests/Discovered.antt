-- ===== src/Tests/Discovered.antt =====
-- The theorems on the registry, applied.
use scamp_rs.Proto.Header.{json, default_header}
use scamp_rs.Requester.{
  RequestOpts, Try, is_dispatch_failure, dispatch_once, request_with_opts, find_entry, envelope_str,
  checked, time_allowed,
}
use scamp_rs.Requester.Retry.{request_with_opts_elsewhere}
use scamp_rs.Common.{
  ℕ, ◌+◌, ◌<◌, ◌≤◌, ◌≡◌, ◌≢◌, ◌⊎◌, inl, retain, refl, true, false, none, some, List, [], ◌∷◌, codes,
  arith, ◌>>=◌, any, same, leb,
}
use scamp_rs.Common.Maps.{get, text_key}
use scamp_rs.Discovery.Announcement.{
  Action, AnnouncementPacket, AnnouncementParams, ServiceInfo, v4,
}
use scamp_rs.Auth.Services.{AuthorizedServices, empty_services, is_authorized, has_colon, is_meta}
use scamp_rs.Discovery.Registry.Offered.{inject_packet-find_action_with_envelope}
use scamp_rs.Discovery.Registry.{
  Outside, ActionEntry, ServiceRegistry, empty_registry, make_index_key, find_action_with_envelope,
  is_failed, mark_failed, inject_packet, speaks, pick_healthy, is_candidate,
}
use scamp_rs.Discovery.Registry.Choice.{
  IsIn, IsBest, find_action_with_envelope-IsBest, find_action_with_envelope-some,
}
use scamp_rs.Discovery.Registry.Failures.{mark_failed-is_failed}
use scamp_rs.Discovery.Registry.Replay.{IsRejected, inject_packet-twice}
use scamp_rs.Strings.Decimal.{to_string}

-- Whole seconds for `f64`, a registry that trusts every signature.
abbrev outside : Outside ℕ
outside = record {
  at_most = leb;
  outlived = λ now interval timestamp. leb (timestamp + interval + interval) now;
  to_lowercase = λ t. t;
  signature_is_valid = λ p. true;
}

abbrev action : Action
action = record {
  path = codes "product.fetch";
  version = 1;
  pathver = codes "product.fetch~1";
  flags = [];
  sector = codes "main";
  envelopes = codes "json" ∷ [];
  packet_section = v4;
}

abbrev info : ServiceInfo
info = record {
  identity = codes "svc";
  uri = codes "beepish+tls://10.0.0.1:30100";
  fingerprint = some (codes "AA");
}

abbrev params : AnnouncementParams ℕ
params = record { weight = 1; interval = 5; timestamp = 1000 }

abbrev packet : AnnouncementPacket ℕ
packet = record {
  json_blob = [];
  body = record { info = info; params = params; actions = action ∷ [] };
  certificate = [];
  signature = [];
}

abbrev entry : ActionEntry ℕ
entry = record {
  action = action;
  service_info = info;
  announcement_params = params;
  authorized = true;
}

abbrev registry : ServiceRegistry ℕ
registry = record {
  actions_by_key = (codes "main:product.fetch.v1", entry ∷ []) ∷ [];
  seen_timestamps = (codes "AA svc", 1000) ∷ [];
  failures = [];
}

offered :
    get
      (outside.to_lowercase (make_index_key outside (codes "main") (codes "product.fetch") 1))
      registry.actions_by_key
    ≡ some (entry ∷ [])
unfolding make_index_key get same to_string
offered = refl

suitable : retain (speaks outside (codes "json")) (entry ∷ []) ≢ []
unfolding retain speaks is_candidate same
suitable e = absurd (ground (arith, e))

find_action_with_envelope-some_example :
    (e : ActionEntry ℕ) × (find_action_with_envelope outside 1001 17
        (codes "main")
        (codes "product.fetch")
        1
        (codes "json")
        registry
      ≡ some e)
find_action_with_envelope-some_example =
    find_action_with_envelope-some outside 1001 17 (codes "main") (codes "product.fetch") 1
      (codes "json") registry (entry ∷ []) offered suitable

found :
    find_action_with_envelope outside 1001 17
      (codes "main")
      (codes "product.fetch")
      1
      (codes "json")
      registry
    ≡ some entry
unfolding find_action_with_envelope make_index_key get same to_string pick_healthy retain speaks
    is_candidate is_failed
found = refl

find_action_with_envelope-IsBest_example :
    (entries : List (ActionEntry ℕ)) × (get
        (outside.to_lowercase (make_index_key outside (codes "main") (codes "product.fetch") 1))
        registry.actions_by_key
      ≡ some entries)
    × IsIn entry entries
    × (0 < 1)
    × (true ≡ true)
    × (any (λ env. same env (codes "json")) action.envelopes ≡ true)
    × IsBest outside 1001 registry.failures (retain (speaks outside (codes "json")) entries) entry
find_action_with_envelope-IsBest_example =
    find_action_with_envelope-IsBest outside 1001 17 (codes "main") (codes "product.fetch") 1
      (codes "json") registry entry found

mark_failed-is_failed_example :
    (1030 < 1000 + 60
      → is_failed (mark_failed outside 1000 (codes "svc") registry).failures (codes "svc") 1030
        ≡ true)
    × (1000 + 3600 ≤ 1030
        → is_failed (mark_failed outside 1000 (codes "svc") registry).failures (codes "svc") 1030
          ≡ false)
    × (same (codes "svc") (codes "b") ≡ false
        → is_failed (mark_failed outside 1000 (codes "svc") registry).failures (codes "b") 1030
          ≡ is_failed registry.failures (codes "b") 1030)
mark_failed-is_failed_example =
    mark_failed-is_failed outside 1000 (omega arith) (codes "svc") (codes "b") registry 1030

inject_packet-twice_example :
    IsRejected outside 1001 packet empty_registry
    ⊎ (inject_packet outside 1002 packet
          (empty_services)
          (inject_packet outside 1001 packet (empty_services) empty_registry)
        ≡ inject_packet outside 1001 packet (empty_services) empty_registry)
inject_packet-twice_example =
    inject_packet-twice outside 1001 1002 packet (empty_services) empty_registry refl

-- A request whose tries are answered by a dispatch failure, with two services to choose from.
abbrev opts : RequestOpts
opts = record {
  action = codes "product.fetch";
  version = 1;
  body = [];
  sector = codes "main";
  envelope = json;
  ticket = [];
  timeout_secs = none;
}

abbrev failing_try : ℕ → ℕ → Try ℕ
failing_try now random = record {
  now = now;
  random = random;
  send = λ entry opts secs. some (record {
    header = record default_header { error_code = some (codes "dispatch_failure") };
    body = [];
    error = none;
  });
}

abbrev other_entry : ActionEntry ℕ
other_entry = record entry { service_info = record info { identity = codes "other" } }

abbrev two_services : ServiceRegistry ℕ
two_services = record registry {
  actions_by_key = (codes "main:product.fetch.v1", entry ∷ other_entry ∷ []) ∷ [];
}

first_found : find_entry outside 1000 0 opts two_services ≡ some entry
unfolding find_entry find_action_with_envelope make_index_key get same to_string pick_healthy retain
    speaks is_candidate is_failed envelope_str
first_found = refl

marked_found : find_entry outside 1001 17 opts two_services ≡ some other_entry
unfolding find_entry find_action_with_envelope make_index_key get same to_string pick_healthy retain
    speaks is_candidate is_failed envelope_str
marked_found = refl

first_answer :
    dispatch_once outside (failing_try 1000 0) opts two_services
    ≡ some (record {
      header = record default_header { error_code = some (codes "dispatch_failure") };
      body = [];
      error = none;
    })
unfolding dispatch_once
first_answer = rw first_found refl

two_offered :
    get
      (outside.to_lowercase (make_index_key outside (codes "main") (codes "product.fetch") 1))
      two_services.actions_by_key
    ≡ some (entry ∷ other_entry ∷ [])
unfolding make_index_key get same to_string
two_offered = refl

request_with_opts_elsewhere_example :
    (e : ActionEntry ℕ) × (same (codes "other") e.service_info.identity ≡ false)
    × (request_with_opts outside
          (failing_try 1000 0)
          1001
          17
          (failing_try 1002 17)
          opts
          two_services
        ≡ (
          (failing_try 1002 17).send e opts (time_allowed opts e) >>= checked,
          mark_failed outside 1001 (codes "other") two_services,
        ))
unfolding is_dispatch_failure speaks is_candidate same is_failed envelope_str get
request_with_opts_elsewhere_example =
    request_with_opts_elsewhere outside (failing_try 1000 0) 1001 17 (failing_try 1002 17) opts
      two_services
      (record {
        header = record default_header { error_code = some (codes "dispatch_failure") };
        body = [];
        error = none;
      })
      other_entry entry (entry ∷ other_entry ∷ []) first_answer refl marked_found (omega arith)
      (omega arith) two_offered (inl refl) refl refl refl

abbrev services : AuthorizedServices
services = record empty_services { entries = (codes "AA", (λ t. true) ∷ []) ∷ [] }

inject_packet-find_action_with_envelope_example :
    (e : ActionEntry ℕ) × (find_action_with_envelope outside 1002 17
        (codes "main")
        (codes "product.fetch")
        1
        (codes "json")
        (inject_packet outside 1001 packet services empty_registry)
      ≡ some e)
unfolding is_authorized get same has_colon is_meta
inject_packet-find_action_with_envelope_example =
    inject_packet-find_action_with_envelope outside 1001 1002 17 packet services empty_registry
      action (codes "json") (λ t. refl) (refl, refl, inl refl) (inl refl) refl (omega arith) refl
