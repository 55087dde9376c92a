-- ===== src/Discovery/Cache.antt =====
-- discovery/cache_file.rs: the announcements of the cache file, read through a buffer.
pub mod Rounds
pub mod Records
pub mod Failing
use scamp_rs.Common.{
  ℕ, zero, suc, ◌+◌, Bool, true, false, ◌&&◌, Option, none, some, List, [], ◌∷◌, ◌++◌, Text, Bytes,
  length, take, drop, is_empty, starts_with, ◌==◌, if◌then◌else◌,
}
use scamp_rs.Crypto.{Openssl}
use scamp_rs.Discovery.Packet.{PacketResult, parse}
use scamp_rs.Discovery.Parse.Result.{Reader}
use scamp_rs.Strings.Utf8.{from_utf8}

abbrev pub record_delimiter : Bytes
record_delimiter = 0x0A ∷ 0x25 ∷ 0x25 ∷ 0x25 ∷ 0x0A ∷ []

-- What the reads to come give, one after the other: bytes, or an error. Behind them the file ends, or
-- every further read fails, as it does for a directory.
pub data Reads : Type 0 where
  ended failing : Reads
  bytes : Bytes → Reads → Reads
  error : Reads → Reads

-- The reads come to an end of the file.
unfoldable pub ends : Reads → Bool
ends ended = true
ends failing = false
ends (bytes bs rs) = ends rs
ends (error rs) = ends rs

-- `BufReader`: the bytes in the buffer, and the reads to come.
pub record BufReader : Type 0 where
  pub buffer : Bytes
  pub reads : Reads

-- `fill_buf`, with whether it failed. A buffer that holds bytes is not read into.
unfoldable pub fill : Bytes → Reads → BufReader × Bool
fill (b ∷ bs) rs = (record { buffer = b ∷ bs; reads = rs }, false)
fill [] ended = (record { buffer = []; reads = ended }, false)
fill [] failing = (record { buffer = []; reads = failing }, true)
fill [] (error rs) = (record { buffer = []; reads = rs }, true)
fill [] (bytes bs rs) = (record { buffer = bs; reads = rs }, false)

unfoldable pub fill_buf : BufReader → BufReader × Bool
unfolding fill
fill_buf r = fill r.buffer r.reads

abbrev pub consume : ℕ → BufReader → BufReader
consume n r = record r { buffer = drop n r.buffer }

-- `windows(n).position(|window| window == delimiter)`.
unfoldable pub position : Bytes → Bytes → Option ℕ
unfolding starts_with
position delimiter [] = none
position delimiter (b ∷ bs) =
    let rest = position delimiter bs in
    if starts_with delimiter (b ∷ bs)
    then some 0
    else elim rest [ none ↦ none | some i ↦ some (suc i) ]

-- `Option<Result<AnnouncementPacket>>`; `out_of_fuel` stands for a loop that was cut.
pub data Item (F : Type 0) : Type 0 where
  announcement : PacketResult F → Item F
  not_utf8 io_error : Item F

pub data Next (F : Type 0) : Type 0 where
  finished : Next F
  item : Item F → BufReader → Next F
  out_of_fuel : Next F

-- The bytes and the reads that are left, the measure of the loops.
unfoldable pub reads_size : Reads → ℕ
reads_size ended = 0
reads_size failing = 0
reads_size (error rs) = suc (reads_size rs)
reads_size (bytes bs rs) = suc (length bs + reads_size rs)

unfoldable pub size : BufReader → ℕ
unfolding reads_size
size r = length r.buffer + reads_size r.reads

module _ {F : Type 0} (o : Reader F) (c : Openssl) where
  unfoldable pub item_of : Bytes → Item F
  item_of announcement_data = elim (from_utf8 announcement_data) [
    | none ↦ not_utf8
    | some v ↦ announcement (parse o c v)
  ]

  -- The loop of `next`; `announcement_data` is what was read of the record.
  unfoldable pub next_from : ℕ → Bytes → BufReader → Next F
  unfolding fill_buf item_of position
  next_from zero announcement_data r = out_of_fuel
  next_from (suc fuel) announcement_data r =
      let (r', is_err) = fill_buf r in
      elim is_err [
        | true ↦ item io_error r'
        | false ↦ elim (is_empty r'.buffer) [
          | true ↦ elim (is_empty announcement_data) [
            | true ↦ finished
            | false ↦ item (item_of announcement_data) r'
          ]
          | false ↦ elim (position record_delimiter r'.buffer) [
            | none ↦ next_from fuel (announcement_data ++ r'.buffer) (consume (length r'.buffer) r')
            | some pos ↦ elim (is_empty (announcement_data ++ take pos r'.buffer)) [
              | true ↦
                  next_from fuel (announcement_data ++ take pos r'.buffer)
                    (consume (pos + length record_delimiter) r')
              | false ↦
                  item (item_of (announcement_data ++ take pos r'.buffer))
                    (consume (pos + length record_delimiter) r')
            ]
          ]
        ]
      ]

  -- `next`; every round but one that fails takes a byte or a read, so that the measure is fuel enough.
  unfoldable pub next : BufReader → Next F
  unfolding next_from size
  next r = next_from (suc (size r)) [] r

  -- The items of the iterator, unless the fuel ends before they do.
  unfoldable pub items_from : ℕ → BufReader → Option (List (Item F))
  unfolding next
  items_from zero r = none
  items_from (suc fuel) r = elim (next r) [
    | finished ↦ some []
    | item i r' ↦ elim (items_from fuel r') [ none ↦ none | some is ↦ some (i ∷ is) ]
    | out_of_fuel ↦ none
  ]

  unfoldable pub items : BufReader → Option (List (Item F))
  unfolding items_from
  items r = items_from (suc (size r)) r
