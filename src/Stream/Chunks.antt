-- ===== src/Stream/Chunks.antt =====
-- The read loop over a whole connection: however the stream is cut into reads.
use scamp_rs.Common.{
  ℕ, ◌+◌, ◌≤◌, ◌<◌, ◌≡◌, refl, sym, ap, subst, ◌∙◌, Bool, true, false, List, [], ◌∷◌, ◌++◌,
  append_assoc, append-nil, Bytes, arith, length, take, length-append, length-take, All, joined,
  ltb, lt→ltb,
}
use scamp_rs.Proto.Packet.{Packet, Codec, success}
use scamp_rs.Proto.Packet.Parse.{parse}
use scamp_rs.Proto.Packet.RoundTrip.{IsSendable, parse-to_bytes, length-to_bytes-pos}
use scamp_rs.Proto.Packet.Write.{to_bytes}
use scamp_rs.Stream.{
  waiting, overflow, buffer_limit, packets, feed, feed_next, feed_all, route_all, Accepts,
}
use scamp_rs.Stream.Delivery.{wire, IsShort, packets-Progress}

-- `let mut tmp = [0u8; 4096]`
abbrev pub read_size : ℕ
read_size = 4096

-- A packet after whose last byte another full read still fits the buffer.
abbrev pub IsRoomy : Codec → Packet → Type 0
IsRoomy c p = length (to_bytes c p) + read_size ≤ buffer_limit + 1

All-append_right {ℓ κ} :
    {A : Type ℓ} (P : A → Type κ) (xs ys : List A) → All P (xs ++ ys) → All P ys
All-append_right P [] ys h = h
All-append_right P (x ∷ xs) ys h = All-append_right P xs ys h.1

IsShort-fits :
    (c : Codec) (buf chunk : Bytes) (ps : List Packet)
    → IsShort c buf ps
    → All (IsRoomy c) ps
    → length chunk ≤ read_size
    → length (buf ++ chunk) ≤ buffer_limit
IsShort-fits c buf chunk [] short roomy h = omega (arith, length-append buf chunk, ap length short)
IsShort-fits c buf chunk (p ∷ ps) short roomy h = omega (arith, length-append buf chunk, roomy.0)

nothing_left :
    (c : Codec) (buf : Bytes) (ps : List Packet)
    → buf ++ [] ≡ wire c ps
    → IsShort c buf ps
    → (ps ≡ []) × (buf ≡ [])
unfolding wire
nothing_left c buf [] e short = (refl, short)
nothing_left c buf (p ∷ ps) e short =
    absurd
      (omega (arith, ap length e, length-append buf [], length-append (to_bytes c p) (wire c ps)))

module _ {ℓ} {S : Type ℓ} (c : Codec) (route : Packet → S → S × Bool) where
  route_all-append :
      (ps qs : List Packet) (s : S)
      → route_all c route (ps ++ qs) s ≡ route_all c route qs (route_all c route ps s)
  unfolding route_all
  route_all-append [] qs s = refl
  route_all-append (p ∷ ps) qs s = route_all-append ps qs (route p s).0

  feed-packets :
      (buf chunk : Bytes) (s : S)
      → length (buf ++ chunk) ≤ buffer_limit
      → feed c route buf s chunk ≡ packets c route (length (buf ++ chunk)) (buf ++ chunk) s
  unfolding feed
  feed-packets buf chunk s h =
      let fits : ltb buffer_limit (length (buf ++ chunk)) ≡ false = ground arith in rw fits

  feed_next-waiting :
      (chunks : List Bytes) (ps : List Packet) (buf : Bytes) (s : S)
      → buf ++ joined chunks ≡ wire c ps
      → IsShort c buf ps
      → All (IsSendable c) ps
      → All (IsRoomy c) ps
      → All (λ b. length b ≤ read_size) chunks
      → Accepts c route ps s
      → feed_next c route chunks (waiting s buf) ≡ waiting (route_all c route ps s) []
  unfolding feed_next route_all
  feed_next-waiting [] ps buf s e short sendable roomy reads accepts =
      let (none_left, empty) = nothing_left c buf ps e short in rw (none_left, empty)
  feed_next-waiting (chunk ∷ chunks) ps buf s e short sendable roomy reads accepts =
      let fits = IsShort-fits c buf chunk ps short roomy reads.0 in
      let g =
        packets-Progress c route (length (buf ++ chunk)) ps (buf ++ chunk) (joined chunks) s
          (omega arith) sendable accepts (append_assoc buf chunk (joined chunks) ∙ e) in
      let roomy_left =
        All-append_right (IsRoomy c) g.done g.left (subst (All (IsRoomy c)) g.parts roomy) in
      ap (feed_next c route chunks) (feed-packets buf chunk s fits ∙ g.outcome)
      ∙ feed_next-waiting chunks g.left g.rest (route_all c route g.done s) g.to_come g.short
          g.sendable roomy_left reads.1 g.accepts
      ∙ ap (λ t. waiting t [])
          (sym (route_all-append g.done g.left s)
            ∙ ap (λ ps'. route_all c route ps' s) (sym g.parts))

  -- However the bytes of a list of packets are cut into reads of at most 4096 bytes, the loop hands
  -- exactly these packets to `route`, in their order, and ends with an empty buffer, waiting. The
  -- packets are ones that `Packet::write` can produce, none closes the connection, and each leaves
  -- room in the buffer for a full read behind it.
  pub feed_all-route_all :
      (chunks : List Bytes) (ps : List Packet) (s : S)
      → joined chunks ≡ wire c ps
      → All (IsSendable c) ps
      → All (IsRoomy c) ps
      → All (λ b. length b ≤ read_size) chunks
      → Accepts c route ps s
      → feed_all c route chunks [] s ≡ waiting (route_all c route ps s) []
  unfolding feed_all
  feed_all-route_all chunks ps s e sendable roomy reads accepts =
      feed_next-waiting chunks ps [] s e (start ps) sendable roomy reads accepts
    where
      start : (qs : List Packet) → IsShort c [] qs
      start [] = refl
      start (q ∷ qs) = length-to_bytes-pos c q

-- A packet that is too long for the buffer: it parses, but if `m` bytes of it are in the buffer and a
-- full read comes in that takes the buffer beyond its limit, the loop ends, whatever the read holds
-- and although the buffer's own bytes are the beginning of a packet.
pub feed-overflow {ℓ} :
    {S : Type ℓ} (c : Codec) (route : Packet → S → S × Bool) (p : Packet) (m : ℕ) (chunk : Bytes)
    (s : S)
    → IsSendable c p
    → m < length (to_bytes c p)
    → buffer_limit < m + length chunk
    → (feed c route (take m (to_bytes c p)) s chunk ≡ overflow s)
      × (parse c (to_bytes c p) ≡ success p (length (to_bytes c p)))
unfolding feed
feed-overflow c route p m chunk s sendable h long =
    let b = take m (to_bytes c p) in
    let len : length b ≡ m = omega (arith, length-take m (to_bytes c p)) in
    let over : ltb buffer_limit (length (b ++ chunk)) ≡ true =
      lt→ltb _ _ (omega (arith, length-append b chunk)) in
    (rw over, ap (parse c) (sym (append-nil (to_bytes c p))) ∙ parse-to_bytes c p [] sendable)
