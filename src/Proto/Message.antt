-- ===== src/Proto/Message.antt =====
-- A message on the wire, as both sides send it: client/connection.rs (`send_request`) and
-- service/server_reply.rs (`send_reply`) write a HEADER packet, the body in DATA packets of at most
-- 2048 bytes, and an EOF packet.
use scamp_rs.Common.{
  ℕ, zero, suc, ◌≤◌, ◌<◌, ◌≡◌, refl, ap, ◌∙◌, none, some, List, [], ◌∷◌, ◌++◌, map, Bytes, arith,
  length, take, drop, take-append-drop, length-take, length-drop, All, joined,
}
use scamp_rs.Proto.{header, data_chunk, eof, data_chunk_size}
use scamp_rs.Proto.Header.{PacketHeader}
use scamp_rs.Proto.Packet.{Packet}

abbrev pub header_packet : ℕ → PacketHeader → Packet
header_packet num h = record {
  packet_type = header;
  msg_no = num;
  packet_header = some h;
  body = [];
}

abbrev pub data_packet : ℕ → Bytes → Packet
data_packet num chunk = record {
  packet_type = data_chunk;
  msg_no = num;
  packet_header = none;
  body = chunk;
}

abbrev pub eof_packet : ℕ → Packet
eof_packet num = record { packet_type = eof; msg_no = num; packet_header = none; body = [] }

-- The chunks of a body; its length is fuel enough.
unfoldable pub chunks : ℕ → Bytes → List Bytes
chunks fuel [] = []
chunks zero (b ∷ bs) = []
chunks (suc fuel) (b ∷ bs) =
    take data_chunk_size (b ∷ bs) ∷ chunks fuel (drop data_chunk_size (b ∷ bs))

abbrev pub chunks_of : Bytes → List Bytes
chunks_of body = chunks (length body) body

abbrev pub message : ℕ → PacketHeader → Bytes → List Packet
message num h body =
    header_packet num h ∷ (map (data_packet num) (chunks_of body) ++ eof_packet num ∷ [])

joined-chunks : (fuel : ℕ) (body : Bytes) → length body ≤ fuel → joined (chunks fuel body) ≡ body
unfolding chunks
joined-chunks zero [] h = refl
joined-chunks (suc fuel) [] h = refl
joined-chunks zero (b ∷ bs) h = absurd (omega arith)
joined-chunks (suc fuel) (b ∷ bs) h =
    let rest = drop data_chunk_size (b ∷ bs) in
    ap (λ t. take data_chunk_size (b ∷ bs) ++ t)
      (joined-chunks fuel rest (omega (arith, length-drop data_chunk_size (b ∷ bs))))
    ∙ take-append-drop data_chunk_size (b ∷ bs)

-- A chunk has a byte at least and 2048 at most.
abbrev pub IsChunk : Bytes → Type 0
IsChunk b = (0 < length b) × (length b ≤ data_chunk_size)

chunks-All : (fuel : ℕ) (body : Bytes) → All IsChunk (chunks fuel body)
unfolding chunks
chunks-All zero [] = tt
chunks-All (suc fuel) [] = tt
chunks-All zero (b ∷ bs) = tt
chunks-All (suc fuel) (b ∷ bs) =
    let len = length-take data_chunk_size (b ∷ bs) in
    ((omega (arith, len), omega (arith, len)), chunks-All fuel (drop data_chunk_size (b ∷ bs)))

-- The chunks of a body are the body, cut into pieces of 1 to 2048 bytes.
pub chunks_of_lem : (body : Bytes) → (joined (chunks_of body) ≡ body) × All IsChunk (chunks_of body)
chunks_of_lem body = (joined-chunks (length body) body (omega arith), chunks-All (length body) body)
