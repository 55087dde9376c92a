-- ===== src/Tests/Wire.antt =====
-- The theorems on packets and the stream, applied.
use scamp_rs.Common.{
  ◌≤◌, ◌≡◌, refl, ap, sym, ◌∙◌, ◌↔◌, some, [], ◌∷◌, ◌++◌, append-nil, arith, length, codes, All,
  joined,
}
use scamp_rs.Proto.Header.RoundTrip.{IsWire, of_json-to_json}
use scamp_rs.Proto.Header.Struct.{of_json, to_json}
use scamp_rs.Proto.Message.{message, chunks, chunks_of, chunks_of_lem, IsChunk}
use scamp_rs.Proto.Packet.{encode_header, type_name, success}
use scamp_rs.Proto.Packet.Parse.{parse}
use scamp_rs.Proto.Packet.Write.{to_bytes, body_bytes, header_line, header_words}
use scamp_rs.Client.Reader.{route_packet}
use scamp_rs.Proto.Packet.Frame.{Frame, parse-iff-Frame}
use scamp_rs.Proto.Packet.Stable.{parse-append}
use scamp_rs.Stream.Settled.{IsSettled, packets_total}
use scamp_rs.Stream.{waiting, packets, feed_all, route_all, Accepts}
use scamp_rs.Stream.Chunks.{IsRoomy, read_size, feed_all-route_all}
use scamp_rs.Proto.Packet.RoundTrip.{IsSendable, parse-to_bytes}
use scamp_rs.Stream.Delivery.{wire}
use scamp_rs.Stream.Message.{IsHeader}
use scamp_rs.Strings.Decimal.{to_string}
use scamp_rs.Strings.Utf8.{as_bytes}
use scamp_rs.Tests.{header, codec, body, data_sample, client}

header-IsWire : IsWire header
header-IsWire = record {
  envelope = tt;
  error_data = λ e. absurd (ground (arith, e));
  request_id = omega arith;
  client_id = omega arith;
  version = omega arith;
}

of_json-to_json_example : of_json codec.of_array (to_json header) ≡ some header
of_json-to_json_example = of_json-to_json codec.of_array header header-IsWire

pub header-IsHeader : IsHeader codec header
unfolding encode_header
header-IsHeader = record { wire = header-IsWire; text = refl; size = omega arith }

data-IsSendable : IsSendable codec data_sample
unfolding body_bytes
data-IsSendable = record { number = omega arith; size = omega arith; content = tt }

parse-to_bytes_example :
    parse codec (to_bytes codec data_sample ++ codes "more")
    ≡ success data_sample (length (to_bytes codec data_sample))
parse-to_bytes_example = parse-to_bytes codec data_sample (codes "more") data-IsSendable

pub wire-length : length (wire codec (message 0 header body)) ≤ 4096
unfolding wire to_bytes body_bytes header_line header_words encode_header type_name to_string
    as_bytes chunks
wire-length = omega arith

parse-iff-Frame_example :
    (parse codec (to_bytes codec data_sample)
      ≡ success data_sample (length (to_bytes codec data_sample)))
    ↔ Frame codec (to_bytes codec data_sample) data_sample (length (to_bytes codec data_sample))
parse-iff-Frame_example =
    parse-iff-Frame codec (to_bytes codec data_sample) data_sample
      (length (to_bytes codec data_sample))

read_back :
    parse codec (to_bytes codec data_sample)
    ≡ success data_sample (length (to_bytes codec data_sample))
read_back =
    ap (parse codec) (sym (append-nil (to_bytes codec data_sample)))
    ∙ parse-to_bytes codec data_sample [] data-IsSendable

parse-append_example :
    parse codec (to_bytes codec data_sample ++ codes "more")
    ≡ success data_sample (length (to_bytes codec data_sample))
parse-append_example = parse-append codec (to_bytes codec data_sample) (codes "more") read_back

chunks_of_lem_example : (joined (chunks_of body) ≡ body) × All IsChunk (chunks_of body)
chunks_of_lem_example = chunks_of_lem body

data-IsRoomy : IsRoomy codec data_sample
unfolding to_bytes body_bytes header_line header_words type_name to_string as_bytes
data-IsRoomy = omega arith

data-Accepts : Accepts codec route_packet (data_sample ∷ []) client
unfolding route_packet
data-Accepts = (refl, tt)

short_wire : length (wire codec (data_sample ∷ [])) ≤ read_size
unfolding wire to_bytes body_bytes header_line header_words type_name to_string as_bytes
short_wire = omega arith

packets_total_example :
    IsSettled codec route_packet
      (packets codec route_packet 4096 (wire codec (data_sample ∷ [])) client)
    × (packets codec route_packet 4096 (wire codec (data_sample ∷ [])) client
        ≡ packets codec route_packet 8192 (wire codec (data_sample ∷ [])) client)
packets_total_example =
    packets_total codec route_packet 4096 8192 (wire codec (data_sample ∷ [])) client short_wire
      (omega (arith, short_wire))

feed_all-route_all_example :
    feed_all codec route_packet (wire codec (data_sample ∷ []) ∷ []) [] client
    ≡ waiting (route_all codec route_packet (data_sample ∷ []) client) []
feed_all-route_all_example =
    feed_all-route_all codec route_packet (wire codec (data_sample ∷ []) ∷ []) (data_sample ∷ [])
      client (append-nil (wire codec (data_sample ∷ []))) (data-IsSendable, tt) (data-IsRoomy, tt)
      (short_wire, tt) data-Accepts
