-- ===== src/Server/Routing/Reach.antt =====
-- server_connection.rs: the reads of a connection keep what its packets keep.
use scamp_rs.Common.{refl, inl, inr, List, [], ◌∷◌, Bytes, arith, Bool-cases}
use scamp_rs.Common.Maps.{number_key}
use scamp_rs.Proto.Packet.Write.{Writer}
use scamp_rs.Server.{Service, Connection}
use scamp_rs.Server.Routing.{
  route_packet, ReadEvent, chunk, end_of_stream, read_error, idle_timeout, is_busy, on_read, run,
  new_connection, handle_connection,
}
use scamp_rs.Stream.{Outcome, waiting, closed, failed, overflow}
use scamp_rs.Stream.Invariant.{state_of, feed-state_of}
use scamp_rs.Server.Routing.Invariant.{IsValid, route_packet-IsValid}

on_read-IsValid :
    (svc : Service) (s : Connection) (buf : Bytes) (e : ReadEvent)
    → IsValid s
    → IsValid (state_of (on_read svc s buf e))
unfolding on_read
on_read-IsValid svc s buf (chunk []) v = v
on_read-IsValid svc s buf (chunk (b ∷ bs)) v =
    feed-state_of svc.codec (route_packet svc) IsValid (route_packet-IsValid svc) buf (b ∷ bs) s v
on_read-IsValid svc s buf end_of_stream v = v
on_read-IsValid svc s buf read_error v = v
on_read-IsValid svc s buf idle_timeout v = elim (Bool-cases (is_busy s)) [
  | inl busy ↦ rw busy v
  | inr idle ↦ rw idle v
]

run-IsValid :
    (svc : Service) (es : List ReadEvent) (o : Outcome Connection)
    → IsValid (state_of o)
    → IsValid (state_of (run svc es o))
unfolding run
run-IsValid svc [] (waiting s buf) v = v
run-IsValid svc [] (closed s) v = v
run-IsValid svc [] (failed s e) v = v
run-IsValid svc [] (overflow s) v = v
run-IsValid svc (e ∷ es) (waiting s buf) v =
    run-IsValid svc es (on_read svc s buf e) (on_read-IsValid svc s buf e v)
run-IsValid svc (e ∷ es) (closed s) v = v
run-IsValid svc (e ∷ es) (failed s t) v = v
run-IsValid svc (e ∷ es) (overflow s) v = v

-- After any reads, whatever the peer sends and whatever the writer does, the connection is valid:
-- no reply has a state, each incoming message has counted the bytes of its body, and the message
-- numbers are below 2^64.
pub handle_connection-IsValid :
    (svc : Service) (es : List ReadEvent) (w : Writer)
    → IsValid (state_of (handle_connection svc es w))
unfolding handle_connection
handle_connection-IsValid svc es w = run-IsValid svc es (waiting (new_connection w) []) (record {
  quiet = refl;
  counted = tt;
  incoming_fits = omega arith;
  outgoing_fits = omega arith;
})
