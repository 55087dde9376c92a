-- ===== src/Proto/Packet/Line.antt =====
-- packet.rs: the header line that `Packet::write` forms, word by word.
use scamp_rs.Common.{
  ℕ, ◌≤◌, ◌<◌, ◌≡◌, ◌≢◌, refl, ap, ◌∙◌, true, false, some, List, [], ◌∷◌, ◌++◌, Bytes, arith,
  length, length-append, any, same, ◌==◌, All, All-append,
}
use scamp_rs.Common.Words.{u64_mod}
use scamp_rs.Proto.{PacketType, header, max_packet_size}
use scamp_rs.Proto.Packet.{Packet, Codec, type_name, type_of_name}
use scamp_rs.Proto.Packet.Parse.{position_crlf}
use scamp_rs.Proto.Packet.Write.{body_bytes, header_words}
use scamp_rs.Strings.Decimal.{IsDigit, to_string, to_string-All, to_string-ne-nil, length-to_string}
use scamp_rs.Strings.Split.{
  IsSolid, is_whitespace, split_whitespace, split_whitespace_word, split_whitespace_last,
}

-- A byte of a header line: ASCII, and no line end.
abbrev pub IsLine : ℕ → Type 0
IsLine c = (c < 0x80) × (c ≢ 10)

type_name-length : (t : PacketType) → length (type_name t) ≤ 6
unfolding type_name
type_name-length header = omega arith
type_name-length _ = omega arith

type_name-All :
    (t : PacketType) → All IsLine (type_name t) × IsSolid (type_name t) × (type_name t ≢ [])
unfolding type_name is_whitespace
type_name-All header = (omega arith, ground arith, cc)
type_name-All _ = (omega arith, ground arith, cc)

pub type_of_name-type_name : (t : PacketType) → type_of_name (type_name t) ≡ some t
unfolding type_of_name type_name same
type_of_name-type_name header = refl
type_of_name-type_name _ = refl

digit_solid : (c : ℕ) → IsDigit c → is_whitespace c ≡ false
unfolding is_whitespace
digit_solid c d = ground arith

pub All-map {ℓ κ} :
    {P : ℕ → Type ℓ} {Q : ℕ → Type κ} (xs : List ℕ) → ((x : ℕ) → P x → Q x) → All P xs → All Q xs
All-map [] f h = tt
All-map (x ∷ xs) f h = (f x h.0, All-map xs f h.1)

digit-IsLine : (c : ℕ) → IsDigit c → IsLine c
digit-IsLine c d = omega arith

pub position_crlf-line :
    (line rest : Bytes)
    → All IsLine line
    → position_crlf (line ++ 13 ∷ 10 ∷ rest) ≡ some (length line)
unfolding position_crlf
position_crlf-line [] rest h = refl
position_crlf-line (a ∷ []) rest h = ground (arith, position_crlf-line [] rest tt)
position_crlf-line (a ∷ b ∷ line) rest h = ground (arith, position_crlf-line (b ∷ line) rest h.1)

pub any-newline_free : (line : Bytes) → All IsLine line → any (λ b. b == 10) line ≡ false
any-newline_free [] h = refl
any-newline_free (a ∷ line) h = ground (arith, any-newline_free line h.1)

space : is_whitespace b' ' ≡ true
unfolding is_whitespace
space = refl

module _ (c : Codec) (p : Packet) where
  pub header_words-All : All IsLine (header_words c p)
  unfolding header_words
  header_words-All = All-append IsLine (type_name p.packet_type) _ (type_name-All p.packet_type).0 (
    omega arith,
    All-append IsLine (to_string p.msg_no) _
        (All-map (to_string p.msg_no) digit-IsLine (to_string-All p.msg_no))
        (omega arith, All-map (to_string _) digit-IsLine (to_string-All (length (body_bytes c p)))),
  )

  pub split-header_words :
      split_whitespace (header_words c p)
      ≡ type_name p.packet_type ∷ to_string p.msg_no ∷ to_string (length (body_bytes c p)) ∷ []
  unfolding header_words
  split-header_words =
      split_whitespace_word (type_name p.packet_type) b' ' _ (type_name-All p.packet_type).2
        (type_name-All p.packet_type).1 space
      ∙ ap (λ ws. type_name p.packet_type ∷ ws)
          (split_whitespace_word (to_string p.msg_no) b' ' _ (to_string-ne-nil p.msg_no)
              (All-map (to_string p.msg_no) digit_solid (to_string-All p.msg_no)) space
            ∙ ap (λ ws. to_string p.msg_no ∷ ws)
                (split_whitespace_last (to_string _) (to_string-ne-nil (length (body_bytes c p)))
                  (All-map (to_string _) digit_solid (to_string-All (length (body_bytes c p))))))

  pub header_words-length :
      p.msg_no < u64_mod
      → length (body_bytes c p) ≤ max_packet_size
      → length (header_words c p) ≤ 34
  unfolding header_words
  header_words-length h k = omega (
    arith,
    length-append (type_name p.packet_type)
        (b' ' ∷ (to_string p.msg_no ++ b' ' ∷ to_string (length (body_bytes c p)))),
    length-append (to_string p.msg_no) (b' ' ∷ to_string (length (body_bytes c p))),
    type_name-length p.packet_type,
    length-to_string p.msg_no 19 (omega arith),
    length-to_string (length (body_bytes c p)) 5 (omega arith),
  )
