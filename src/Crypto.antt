-- ===== src/Crypto.antt =====
-- crypto.rs: fingerprints of certificates, and the check of a signature.
use scamp_rs.Common.{
  ℕ, ◌+◌, ◌-◌, ◌/◌, ◌%◌, Bool, not, Option, some, [], ◌∷◌, map, joined, Text, Bytes, codes,
  starts_with, retain, ltb, if◌then◌else◌, ◌>>=◌,
}
use scamp_rs.Strings.Fields.{joined_by}
use scamp_rs.Strings.Lines.{lines, trim}
use scamp_rs.Strings.Split.{is_whitespace}
use scamp_rs.Strings.Utf8.{as_bytes}

-- The crates: SHA-1, base64, and openssl's check of a signature of a message under the public key of a
-- certificate; there a failure is `none`.
pub record Openssl : Type 0 where
  pub sha1 : Bytes → Bytes
  pub base64_decode : Text → Option Bytes
  pub verify : Bytes → Bytes → Bytes → Option Bool

-- `{:02X}`.
hex_digit : ℕ → ℕ
hex_digit n = if ltb n 10 then b'0' + n else b'A' + (n - 10)

unfoldable pub hex_byte : ℕ → Text
unfolding hex_digit
hex_byte b = hex_digit (b / 16) ∷ hex_digit (b % 16) ∷ []

module _ (c : Openssl) where
  unfoldable pub cert_sha1_fingerprint : Bytes → Text
  unfolding hex_byte
  cert_sha1_fingerprint cert_der = joined_by 0x3A (map hex_byte (c.sha1 cert_der))

  unfoldable pub pem_to_der : Text → Option Bytes
  unfolding retain lines
  pem_to_der pem =
      c.base64_decode (joined (retain (λ l. not (starts_with (codes "-----") l)) (lines pem)))

  unfoldable pub cert_pem_fingerprint : Text → Option Text
  unfolding pem_to_der cert_sha1_fingerprint
  cert_pem_fingerprint cert_pem = do der ← pem_to_der cert_pem; some (cert_sha1_fingerprint der)

  -- Every failure is `none`.
  unfoldable pub verify_rsa_sha256 : Text → Bytes → Text → Option Bool
  unfolding retain is_whitespace
  verify_rsa_sha256 cert_pem message signature_base64 = do
    signature ← c.base64_decode (retain (λ ch. not (is_whitespace ch)) (trim signature_base64))
    c.verify (as_bytes (trim cert_pem)) message signature
