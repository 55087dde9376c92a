-- ===== src/Stream.antt =====
-- The read loop that client/reader.rs (`reader_task`) and service/server_connection.rs
-- (`handle_connection`) share: bytes come in, complete packets go to `route`, which says whether to
-- go on. `route` is the loop's parameter, and so is the state that it works on.
pub mod Delivery
pub mod Chunks
pub mod Invariant
pub mod Runs
pub mod Message
pub mod Settled
use scamp_rs.Common.{
  ℕ, zero, suc, ◌+◌, ◌≡◌, Bool, true, false, List, [], ◌∷◌, ◌++◌, Bytes, length, drop, ltb,
  if◌then◌else◌,
}
use scamp_rs.Proto.{max_packet_size}
use scamp_rs.Proto.Packet.{
  Packet, Codec, ParseError, too_short, need_bytes, success, dropped, fatal,
}
use scamp_rs.Proto.Packet.Parse.{parse}

-- How a round of the loop ends: it waits for more bytes with what is left in the buffer, or the
-- loop is over: `route` said so, the bytes are no packet, or the buffer is too long.
pub data Outcome {ℓ} (S : Type ℓ) : Type ℓ where
  waiting : S → Bytes → Outcome S
  closed : S → Outcome S
  failed : S → ParseError → Outcome S
  overflow : S → Outcome S

-- `MAX_PACKET_SIZE + 100`
abbrev pub buffer_limit : ℕ
buffer_limit = max_packet_size + 100

module _ {ℓ} {S : Type ℓ} (c : Codec) (route : Packet → S → S × Bool) where
  -- `while consumed < buf.len()`: `rest` is `buf[consumed..]`. Each round consumes a byte at least,
  -- so the length of the buffer is fuel enough.
  unfoldable pub packets : ℕ → Bytes → S → Outcome S
  packets zero rest s = waiting s rest
  packets (suc fuel) [] s = waiting s []
  packets (suc fuel) (b ∷ bs) s = elim (parse c (b ∷ bs)) [
    | too_short ↦ waiting s (b ∷ bs)
    | need_bytes k ↦ waiting s (b ∷ bs)
    | dropped n ↦ packets fuel (drop n (b ∷ bs)) s
    | success p n ↦ elim (route p s).1 [
      | true ↦ packets fuel (drop n (b ∷ bs)) (route p s).0
      | false ↦ closed (route p s).0
    ]
    | fatal e ↦ failed s e
  ]

  -- One `read` that returned `chunk`, with `buf` left over from the rounds before.
  unfoldable pub feed : Bytes → S → Bytes → Outcome S
  feed buf s chunk =
      let full = buf ++ chunk in
      let more = packets (length full) full s in
      if ltb buffer_limit (length full) then overflow s else more

  feed_next : List Bytes → Outcome S → Outcome S
  feed_next [] o = o
  feed_next (chunk ∷ chunks) (waiting s buf) = feed_next chunks (feed buf s chunk)
  feed_next (chunk ∷ chunks) o = o

  -- The reads of a connection, one after the other.
  unfoldable pub feed_all : List Bytes → Bytes → S → Outcome S
  unfolding feed_next
  feed_all chunks buf s = feed_next chunks (waiting s buf)

  -- The packets' effect, with no stream in between.
  unfoldable pub route_all : List Packet → S → S
  route_all [] s = s
  route_all (p ∷ ps) s = route_all ps (route p s).0

  -- No packet of the list closes the connection.
  abbrev pub Accepts : List Packet → S → Type 0
  Accepts [] s = Unit {0}
  Accepts (p ∷ ps) s = ((route p s).1 ≡ true) × Accepts ps (route p s).0
