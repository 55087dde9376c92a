-- ===== src/Client/Reader/Ending.antt =====
-- client/reader.rs: what is left when `reader_task` ends.
use scamp_rs.Common.{
  ℕ, ◌≡◌, refl, inl, inr, some, List, [], ◌∷◌, ◌++◌, Text, Bytes, arith, Bool-cases, ==_refl, ◌==◌,
}
use scamp_rs.Common.Maps.{Map, get, number_key}
use scamp_rs.Client.{ScampResponse, Client}
use scamp_rs.Client.Reader.{
  fail_each, error_response, notify_all_pending, route_packet, ReadEvent, chunk, end_of_stream,
  read_error, on_read, end_reader, run, reader_task,
}
use scamp_rs.Client.Reader.Owed.{IsOwed, delivered-cons, route_packet-IsOwed}
use scamp_rs.Proto.Packet.{Codec, ParseError}
use scamp_rs.Stream.{Outcome, waiting, closed, failed, overflow}
use scamp_rs.Stream.Invariant.{state_of, feed-state_of}

fail_each-done :
    (text : Text) (pending : Map ℕ ℕ) (done : Map ℕ ScampResponse) (tx : ℕ)
    → get tx done ≡ some (error_response text)
    → get tx (fail_each text pending done) ≡ some (error_response text)
unfolding fail_each get
fail_each-done text [] done tx h = h
fail_each-done text ((id, t) ∷ rest) done tx h = elim (Bool-cases (t == tx)) [
  | inl hit ↦ fail_each-done text rest _ tx (rw hit refl)
  | inr miss ↦ fail_each-done text rest _ tx (rw miss h)
]

fail_each-pending :
    (text : Text) (pending : Map ℕ ℕ) (done : Map ℕ ScampResponse) (id tx : ℕ)
    → get id pending ≡ some tx
    → get tx (fail_each text pending done) ≡ some (error_response text)
unfolding fail_each get
fail_each-pending text [] done id tx h = absurd (ground arith)
fail_each-pending text ((i, t) ∷ rest) done id tx h = elim (Bool-cases (i == id)) [
  | inl hit ↦
      let e : t ≡ tx = ground arith in fail_each-done text rest _ tx (rw (e, ==_refl tx) refl)
  | inr miss ↦ fail_each-pending text rest _ id tx (ground arith)
]

fail_each_sent :
    (text : Text) (pending : Map ℕ ℕ) (done : Map ℕ ScampResponse) (tx : ℕ)
    → ((resp : ScampResponse) × (get tx done ≡ some resp))
    → (resp : ScampResponse) × (get tx (fail_each text pending done) ≡ some resp)
unfolding fail_each
fail_each_sent text [] done tx h = h
fail_each_sent text ((id, t) ∷ rest) done tx h =
    fail_each_sent text rest ((t, error_response text) ∷ done) tx
      (delivered-cons t tx (error_response text) done h)

on_read-IsOwed :
    (c : Codec) (id tx : ℕ) (s : Client) (buf : Bytes) (e : ReadEvent)
    → IsOwed id tx s
    → IsOwed id tx (state_of (on_read c s buf e))
unfolding on_read
on_read-IsOwed c id tx s buf (chunk []) h = h
on_read-IsOwed c id tx s buf (chunk (b ∷ bs)) h =
    feed-state_of c route_packet (IsOwed id tx) (route_packet-IsOwed id tx) buf (b ∷ bs) s h
on_read-IsOwed c id tx s buf end_of_stream h = h
on_read-IsOwed c id tx s buf read_error h = h

-- The loop is over.
abbrev IsOver : Outcome Client → Type 0
IsOver (waiting s buf) = ⊥
IsOver (closed s) = Unit {0}
IsOver (failed s e) = Unit {0}
IsOver (overflow s) = Unit {0}

-- A read after which the loop cannot go on: no bytes, the end, or an error.
abbrev pub IsLast : ReadEvent → Type 0
IsLast (chunk []) = Unit {0}
IsLast (chunk (b ∷ bs)) = ⊥
IsLast end_of_stream = Unit {0}
IsLast read_error = Unit {0}

run-IsOver :
    (c : Codec) (events : List ReadEvent) (last : ReadEvent) (id tx : ℕ) (o : Outcome Client)
    → IsLast last
    → IsOwed id tx (state_of o)
    → IsOver (run c (events ++ last ∷ []) o)
      × IsOwed id tx (state_of (run c (events ++ last ∷ []) o))
unfolding run on_read
run-IsOver c [] (chunk []) id tx (waiting s buf) l h = (tt, h)
run-IsOver c [] (chunk (b ∷ bs)) id tx (waiting s buf) l h = absurd l
run-IsOver c [] end_of_stream id tx (waiting s buf) l h = (tt, h)
run-IsOver c [] read_error id tx (waiting s buf) l h = (tt, h)
run-IsOver c [] last id tx (closed s) l h = (tt, h)
run-IsOver c [] last id tx (failed s e) l h = (tt, h)
run-IsOver c [] last id tx (overflow s) l h = (tt, h)
run-IsOver c (e ∷ events) last id tx (waiting s buf) l h =
    run-IsOver c events last id tx (on_read c s buf e) l (on_read-IsOwed c id tx s buf e h)
run-IsOver c (e ∷ events) last id tx (closed s) l h = (tt, h)
run-IsOver c (e ∷ events) last id tx (failed s er) l h = (tt, h)
run-IsOver c (e ∷ events) last id tx (overflow s) l h = (tt, h)

notify_all_pending-IsOwed :
    (text : Text) (id tx : ℕ) (s : Client)
    → IsOwed id tx s
    → ((notify_all_pending text s).pending ≡ [])
      × ((resp : ScampResponse) × (get tx (notify_all_pending text s).delivered ≡ some resp))
unfolding notify_all_pending
notify_all_pending-IsOwed text id tx s (inl waits) =
    (refl, (error_response text, fail_each-pending text s.pending s.delivered id tx waits))
notify_all_pending-IsOwed text id tx s (inr sent) =
    (refl, fail_each_sent text s.pending s.delivered tx sent)

end_reader-IsOwed :
    (describe : ParseError → Text) (id tx : ℕ) (o : Outcome Client)
    → IsOver o
    → IsOwed id tx (state_of o)
    → ((end_reader describe o).pending ≡ [])
      × ((resp : ScampResponse) × (get tx (end_reader describe o).delivered ≡ some resp))
unfolding end_reader
end_reader-IsOwed describe id tx (waiting s buf) over h = absurd over
end_reader-IsOwed describe id tx (closed s) over h = notify_all_pending-IsOwed _ id tx s h
end_reader-IsOwed describe id tx (failed s e) over h = notify_all_pending-IsOwed _ id tx s h
end_reader-IsOwed describe id tx (overflow s) over h = notify_all_pending-IsOwed _ id tx s h

-- Whatever is read, once a read ends the stream or fails, or the loop was over before, no request is
-- pending, and every request that was pending when the reader began has had a response on its channel.
pub reader_task-answered :
    (c : Codec) (describe : ParseError → Text) (events : List ReadEvent) (last : ReadEvent)
    (id tx : ℕ) (s : Client)
    → IsLast last
    → get id s.pending ≡ some tx
    → ((reader_task c describe (events ++ last ∷ []) s).pending ≡ [])
      × ((resp : ScampResponse) × (get tx (reader_task c describe (events ++ last ∷ []) s).delivered
            ≡ some resp))
unfolding reader_task
reader_task-answered c describe events last id tx s l waits =
    let (over, owed) = run-IsOver c events last id tx (waiting s []) l (inl waits) in
    end_reader-IsOwed describe id tx (run c (events ++ last ∷ []) (waiting s [])) over owed
