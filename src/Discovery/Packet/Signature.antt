-- ===== src/Discovery/Packet/Signature.antt =====
-- crypto.rs, `verify_rsa_sha256`, on the base64 text that service/announce.rs wraps.
use scamp_rs.Common.{
  ℕ, suc, ◌%◌, ◌≡◌, refl, sym, ap, ◌∙◌, true, not, ◌&&◌, some, [], ◌∷◌, Text, Bytes, retain,
  Bool-cases, ltb, ◌==◌, inl, inr,
}
use scamp_rs.Crypto.{Openssl, verify_rsa_sha256}
use scamp_rs.Server.Announce.Wrap.{wrap_from}
use scamp_rs.Strings.Lines.{trim, trim_start, trim_end}
use scamp_rs.Strings.Split.{is_whitespace, IsSolid}
use scamp_rs.Strings.Utf8.{as_bytes}

abbrev unspaced : Text → Text
unspaced = retain (λ ch. not (is_whitespace ch))

unspaced-cons : (c : ℕ) (s t : Text) → unspaced s ≡ unspaced t → unspaced (c ∷ s) ≡ unspaced (c ∷ t)
unfolding retain
unspaced-cons c s t e = elim (Bool-cases (is_whitespace c)) [
  | inl blank ↦ rw blank e
  | inr dark ↦ rw dark (ap (λ u. c ∷ u) e)
]

unspaced-blank : (c : ℕ) (s : Text) → is_whitespace c ≡ true → unspaced (c ∷ s) ≡ unspaced s
unfolding retain
unspaced-blank c s blank = rw blank refl

unspaced-trim_start : (s : Text) → unspaced (trim_start s) ≡ unspaced s
unfolding trim_start
unspaced-trim_start [] = refl
unspaced-trim_start (c ∷ s) = elim (Bool-cases (is_whitespace c)) [
  | inl blank ↦ rw blank (unspaced-trim_start s ∙ sym (unspaced-blank c s blank))
  | inr dark ↦ rw dark refl
]

unspaced-trim_end : (s : Text) → unspaced (trim_end s) ≡ unspaced s
unfolding trim_end
unspaced-trim_end [] = refl
unspaced-trim_end (c ∷ s) = let rest = unspaced-trim_end s in go (trim_end s) refl rest
  where
    go :
        (t : Text)
        → trim_end s ≡ t
        → unspaced (trim_end s) ≡ unspaced s
        → unspaced (trim_end (c ∷ s)) ≡ unspaced (c ∷ s)
    go [] e rest = elim (Bool-cases (is_whitespace c)) [
      | inl blank ↦
          rw (e, trim_end, blank) (ap unspaced (sym e) ∙ rest ∙ sym (unspaced-blank c s blank))
      | inr dark ↦ rw (e, trim_end, dark) (unspaced-cons c [] s (ap unspaced (sym e) ∙ rest))
    ]
    go (d ∷ t) e rest = rw (e, trim_end) (unspaced-cons c (d ∷ t) s (ap unspaced (sym e) ∙ rest))

unspaced-wrap_from : (width i : ℕ) (s : Text) → IsSolid s → unspaced (wrap_from width i s) ≡ s
unfolding retain wrap_from is_whitespace
unspaced-wrap_from width i [] h = refl
unspaced-wrap_from width i (c ∷ s) (dark, h) = elim (Bool-cases (ltb 0 i && (i % width == 0))) [
  | inl turn ↦
      rw (turn, wrap_from) (rw dark (ap (λ t. c ∷ t) (unspaced-wrap_from width (suc i) s h)))
  | inr on ↦ rw (on, wrap_from) (rw dark (ap (λ t. c ∷ t) (unspaced-wrap_from width (suc i) s h)))
]

-- What openssl says of the decoded signature, `verify_rsa_sha256` says of the wrapped text.
pub verify_rsa_sha256-wrap_from :
    (c : Openssl) (cert : Text) (message : Bytes) (encoded : Text) (signature : Bytes) (width : ℕ)
    → IsSolid encoded
    → c.base64_decode encoded ≡ some signature
    → verify_rsa_sha256 c cert message (wrap_from width 0 encoded)
      ≡ c.verify (as_bytes (trim cert)) message signature
unfolding verify_rsa_sha256
verify_rsa_sha256-wrap_from c cert message encoded signature width dark decoded =
    let clean : unspaced (trim (wrap_from width 0 encoded)) ≡ encoded =
      unspaced-trim_end (trim_start (wrap_from width 0 encoded))
      ∙ unspaced-trim_start (wrap_from width 0 encoded)
      ∙ unspaced-wrap_from width 0 encoded dark in
    rw (clean, decoded) refl
