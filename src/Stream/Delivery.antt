-- ===== src/Stream/Delivery.antt =====
-- The read loop: packets reach `route` whole, in order and once, however the stream is cut.
use scamp_rs.Common.{
  ℕ, zero, suc, ◌≤◌, ◌<◌, ◌≡◌, refl, sym, ap, subst, ◌∙◌, ◌⊎◌, inl, inr, Bool, true, false, List,
  [], ◌∷◌, ◌++◌, append_assoc, Bytes, arith, length, take, drop, take-append, drop-append,
  take-append-drop, take-length-append, drop-length-append, length-drop, All, ltb, if◌then◌else◌,
  Bool-cases,
}
use scamp_rs.Proto.Packet.{Packet, Codec, ParseResult, too_short, need_bytes, success}
use scamp_rs.Proto.Packet.Parse.{parse}
use scamp_rs.Proto.Packet.RoundTrip.{
  IsSendable, parse-to_bytes, parse-take-to_bytes, length-to_bytes-pos,
}
use scamp_rs.Proto.Packet.Write.{to_bytes}
use scamp_rs.Stream.{Outcome, waiting, packets, route_all, Accepts}

-- The bytes of packets that are written one behind the other.
unfoldable pub wire : Codec → List Packet → Bytes
wire c [] = []
wire c (p ∷ ps) = to_bytes c p ++ wire c ps

pub wire-append : (c : Codec) (ps qs : List Packet) → wire c (ps ++ qs) ≡ wire c ps ++ wire c qs
unfolding wire
wire-append c [] qs = refl
wire-append c (p ∷ ps) qs = simp (wire-append c ps qs, append_assoc)

-- A list that continues to `ys ++ zs` and reaches beyond `ys` begins with `ys`.
split_longer {ℓ} :
    {A : Type ℓ} (xs ys zs rs : List A)
    → xs ++ rs ≡ ys ++ zs
    → length ys ≤ length xs
    → (xs ≡ ys ++ drop (length ys) xs) × (drop (length ys) xs ++ rs ≡ zs)
split_longer xs ys zs rs e h =
    let front : take (length ys) xs ≡ ys =
      sym (take-append (length ys) xs rs h) ∙ ap (take (length ys)) e ∙ take-length-append ys zs in
    (
      sym (take-append-drop (length ys) xs) ∙ ap (λ t. t ++ drop (length ys) xs) front,
      sym (drop-append (length ys) xs rs h) ∙ ap (drop (length ys)) e ∙ drop-length-append ys zs,
    )

split_shorter {ℓ} :
    {A : Type ℓ} (xs ys zs rs : List A)
    → xs ++ rs ≡ ys ++ zs
    → length xs ≤ length ys
    → xs ≡ take (length xs) ys
split_shorter xs ys zs rs e h =
    sym (take-length-append xs rs) ∙ ap (take (length xs)) e ∙ take-append (length xs) ys zs h

-- The parser's answer where the last byte of a packet is missing.
incomplete :
    (r : ParseResult) (t : Bool) (k : ℕ)
    → r ≡ (if t then too_short else need_bytes k)
    → (r ≡ too_short) ⊎ ((k : ℕ) × (r ≡ need_bytes k))
incomplete r true k e = inl e
incomplete r false k e = inr (k, e)

-- What is left in the buffer is less than the packet that is due.
abbrev pub IsShort : Codec → Bytes → List Packet → Type 0
IsShort c rest [] = rest ≡ []
IsShort c rest (p ∷ ps) = length rest < length (to_bytes c p)

module _ {ℓ} {S : Type ℓ} (c : Codec) (route : Packet → S → S × Bool) where
  -- The packets of `ps` whose last byte is among those that came in have been routed, and nothing
  -- else; `r` are the bytes to come.
  pub record Progress (ps : List Packet) (s : S) (r : Bytes) (o : Outcome S) : Type ℓ where
    pub done : List Packet
    pub left : List Packet
    pub rest : Bytes
    pub parts : ps ≡ done ++ left
    pub outcome : o ≡ waiting (route_all c route done s) rest
    pub to_come : rest ++ r ≡ wire c left
    pub short : IsShort c rest left
    pub accepts : Accepts c route left (route_all c route done s)
    pub sendable : All (IsSendable c) left

  packets_wait :
      (fuel : ℕ) (b : Bytes) (s : S)
      → (parse c b ≡ too_short) ⊎ ((k : ℕ) × (parse c b ≡ need_bytes k))
      → packets c route fuel b s ≡ waiting s b
  unfolding packets
  packets_wait zero b s e = refl
  packets_wait (suc fuel) [] s e = refl
  packets_wait (suc fuel) (x ∷ b) s (inl e) = rw (e, packets)
  packets_wait (suc fuel) (x ∷ b) s (inr (k, e)) = rw (e, packets)

  packets_step :
      (fuel : ℕ) (b : Bytes) (s : S) (p : Packet) (n : ℕ)
      → 0 < length b
      → parse c b ≡ success p n
      → (route p s).1 ≡ true
      → packets c route (suc fuel) b s ≡ packets c route fuel (drop n b) (route p s).0
  unfolding packets
  packets_step fuel [] s p n h e go = absurd (omega arith)
  packets_step fuel (x ∷ b) s p n h e go = rw (e, packets) (rw go)

  packets_done :
      (fuel : ℕ) (b r : Bytes) (s : S) → b ++ r ≡ [] → Progress [] s r (packets c route fuel b s)
  unfolding packets wire route_all
  packets_done zero [] r s e = record {
    done = [];
    left = [];
    rest = [];
    parts = refl;
    outcome = refl;
    to_come = e;
    short = refl;
    accepts = tt;
    sendable = tt;
  }
  packets_done (suc fuel) [] r s e = record {
    done = [];
    left = [];
    rest = [];
    parts = refl;
    outcome = refl;
    to_come = e;
    short = refl;
    accepts = tt;
    sendable = tt;
  }
  packets_done fuel (x ∷ b) r s e = absurd (cc)

  packets_due :
      (fuel : ℕ) (b r : Bytes) (s : S) (p : Packet) (ps : List Packet)
      → IsSendable c p
      → b ++ r ≡ to_bytes c p ++ wire c ps
      → length b < length (to_bytes c p)
      → packets c route fuel b s ≡ waiting s b
  packets_due fuel b r s p ps sendable e h =
      let m = length b in
      let start : b ≡ take m (to_bytes c p) =
        split_shorter b (to_bytes c p) (wire c ps) r e (omega arith) in
      packets_wait fuel b s
        (incomplete _ _ _ (ap (parse c) start ∙ parse-take-to_bytes c p m sendable h))

  Progress-step :
      (p : Packet) (ps : List Packet) (s : S) (r : Bytes) (o : Outcome S)
      → Progress ps (route p s).0 r o
      → Progress (p ∷ ps) s r o
  unfolding route_all
  Progress-step p ps s r o g = record {
    done = p ∷ g.done;
    left = g.left;
    rest = g.rest;
    parts = ap (λ t. p ∷ t) g.parts;
    outcome = g.outcome;
    to_come = g.to_come;
    short = g.short;
    accepts = g.accepts;
    sendable = g.sendable;
  }

  packets_due-Progress :
      (fuel : ℕ) (b r : Bytes) (s : S) (p : Packet) (ps : List Packet)
      → All (IsSendable c) (p ∷ ps)
      → Accepts c route (p ∷ ps) s
      → b ++ r ≡ to_bytes c p ++ wire c ps
      → length b < length (to_bytes c p)
      → Progress (p ∷ ps) s r (packets c route fuel b s)
  unfolding wire route_all
  packets_due-Progress fuel b r s p ps sendable accepts e h = record {
    done = [];
    left = p ∷ ps;
    rest = b;
    parts = refl;
    outcome = packets_due fuel b r s p ps sendable.0 e h;
    to_come = e;
    short = h;
    accepts = accepts;
    sendable = sendable;
  }

  -- One round over the buffer.
  pub packets-Progress :
      (fuel : ℕ) (ps : List Packet) (b r : Bytes) (s : S)
      → length b ≤ fuel
      → All (IsSendable c) ps
      → Accepts c route ps s
      → b ++ r ≡ wire c ps
      → Progress ps s r (packets c route fuel b s)
  unfolding wire
  packets-Progress fuel [] b r s h sendable accepts e = packets_done fuel b r s e
  packets-Progress zero (p ∷ ps) b r s h sendable accepts e =
      packets_due-Progress zero b r s p ps sendable accepts e
        (omega (arith, length-to_bytes-pos c p))
  packets-Progress (suc fuel) (p ∷ ps) b r s h sendable accepts e =
      let size = length (to_bytes c p) in
      elim (Bool-cases (ltb (length b) size)) [
        | inl short ↦ packets_due-Progress (suc fuel) b r s p ps sendable accepts e (ground arith)
        | inr long ↦
            let (start, further) = split_longer b (to_bytes c p) (wire c ps) r e (ground arith) in
            let parsed : parse c b ≡ success p size =
              ap (parse c) start ∙ parse-to_bytes c p (drop size b) sendable.0 in
            let pos = length-to_bytes-pos c p in
            let full : 0 < length b = ground (arith, pos) in
            subst (Progress (p ∷ ps) s r) (sym (packets_step fuel b s p size full parsed accepts.0))
              (Progress-step p ps s r _ (
                packets-Progress fuel ps (drop size b) r (route p s).0
                  (omega (arith, length-drop size b, pos)) sendable.1 accepts.1 further))
      ]
