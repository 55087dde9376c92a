-- ===== src/Stream/Message.antt =====
-- The packets of a message on the stream: they can be written, and they leave room in the buffer.
use scamp_rs.Common.{
  ℕ, ◌+◌, ◌≤◌, ◌<◌, ◌≡◌, refl, some, List, [], ◌∷◌, map, Bytes, arith, length, All, All-append,
}
use scamp_rs.Common.Words.{u64_mod}
use scamp_rs.Proto.{data_chunk_size}
use scamp_rs.Proto.Header.{PacketHeader}
use scamp_rs.Proto.Header.RoundTrip.{IsWire}
use scamp_rs.Proto.Header.Struct.{to_json}
use scamp_rs.Proto.Message.{
  header_packet, data_packet, eof_packet, chunks_of, chunks_of_lem, message, IsChunk,
}
use scamp_rs.Proto.Packet.{Packet, Codec, encode_header}
use scamp_rs.Proto.Packet.Line.{header_words-length}
use scamp_rs.Proto.Packet.RoundTrip.{IsSendable, length-to_bytes}
use scamp_rs.Proto.Packet.Write.{body_bytes}
use scamp_rs.Stream.{buffer_limit}
use scamp_rs.Stream.Chunks.{IsRoomy, read_size}

-- A header whose JSON is read back, and short enough to leave room in the buffer for a full read.
pub record IsHeader (c : Codec) (h : PacketHeader) : Type 0 where
  pub wire : IsWire h
  pub text : c.text.parse (encode_header c h) ≡ some (to_json h)
  pub size : length (encode_header c h) + 41 + read_size ≤ buffer_limit + 1

-- A packet that can be written and leaves room.
abbrev pub IsDeliverable : Codec → Packet → Type 0
IsDeliverable c p = IsSendable c p × IsRoomy c p

pub deliverable-IsSendable :
    (c : Codec) (ps : List Packet) → All (IsDeliverable c) ps → All (IsSendable c) ps
deliverable-IsSendable c [] h = tt
deliverable-IsSendable c (p ∷ ps) h = (h.0.0, deliverable-IsSendable c ps h.1)

pub deliverable-IsRoomy :
    (c : Codec) (ps : List Packet) → All (IsDeliverable c) ps → All (IsRoomy c) ps
deliverable-IsRoomy c [] h = tt
deliverable-IsRoomy c (p ∷ ps) h = (h.0.1, deliverable-IsRoomy c ps h.1)

deliverable :
    (c : Codec) (p : Packet)
    → IsSendable c p
    → length (body_bytes c p) + 41 + read_size ≤ buffer_limit + 1
    → IsDeliverable c p
deliverable c p s h =
    (s, omega (arith, length-to_bytes c p, header_words-length c p s.number s.size))

module _ (c : Codec) (num : ℕ) (fits : num < u64_mod) where
  header-IsDeliverable : (h : PacketHeader) → IsHeader c h → IsDeliverable c (header_packet num h)
  unfolding body_bytes
  header-IsDeliverable h k =
      deliverable c (header_packet num h)
        (record { number = fits; size = omega (arith, k.size); content = (refl, k.wire, k.text) })
        k.size

  plain-IsDeliverable :
      (chunk : Bytes) → length chunk ≤ data_chunk_size → IsDeliverable c (data_packet num chunk)
  unfolding body_bytes
  plain-IsDeliverable chunk h =
      deliverable c (data_packet num chunk)
        (record { number = fits; size = omega arith; content = tt }) (omega arith)

  eof-IsDeliverable : IsDeliverable c (eof_packet num)
  unfolding body_bytes
  eof-IsDeliverable =
      deliverable c (eof_packet num) (record { number = fits; size = omega arith; content = tt })
        (omega arith)

  data-IsDeliverable :
      (cs : List Bytes) → All IsChunk cs → All (IsDeliverable c) (map (data_packet num) cs)
  data-IsDeliverable [] h = tt
  data-IsDeliverable (b ∷ cs) h = (plain-IsDeliverable b h.0.1, data-IsDeliverable cs h.1)

  -- Every packet of a message can be written and leaves room for a read.
  pub message-IsDeliverable :
      (h : PacketHeader) (body : Bytes) → IsHeader c h → All (IsDeliverable c) (message num h body)
  message-IsDeliverable h body k = (
    header-IsDeliverable h k,
    All-append (IsDeliverable c) (map (data_packet num) (chunks_of body)) (eof_packet num ∷ [])
        (data-IsDeliverable (chunks_of body) (chunks_of_lem body).1) (eof-IsDeliverable, tt),
  )
