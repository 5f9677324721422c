-- ===== src/Fingerprint.antt =====
-- utils.go: fingerprints of certificates and the --local-user forms that name them.
pub mod Hex
pub mod Correct
mod Tests
use git_kmssign.Base.{
  ℕ, ◌-◌, ◌+◌, Bool, true, false, [], ◌∷◌, Bytes, length, drop, Option, none, some, leb, ◌==◌, ◌&&◌,
  bytes_eq, if◌then◌else◌,
}
use git_kmssign.Base.Text.{Text}
use git_kmssign.Cert.{Certificate}
use git_kmssign.Fingerprint.Hex.{decode_hex, encode_hex}

-- strings.HasPrefix(s, "0x"), and s[2:] if so.
strip_0x : Text → Text
strip_0x (a ∷ b ∷ rest) = if a == b'0' && b == b'x' then rest else a ∷ b ∷ rest
strip_0x s = s

-- nil and an empty slice are both [].
unfoldable pub normalize_fingerprint : Text → Bytes
unfolding strip_0x
normalize_fingerprint [] = []
normalize_fingerprint (c ∷ cs) = elim (decode_hex (strip_0x (c ∷ cs))) [
  | none ↦ []
  | some fpr ↦ fpr
]

-- bytes.HasSuffix.
abbrev pub has_suffix : Bytes → Bytes → Bool
has_suffix s suffix =
    leb (length suffix) (length s) && bytes_eq (drop (length s - length suffix) s) suffix

-- crypto/sha1 is a parameter.
module _ (sha1 : Bytes → Bytes) where
  pub cert_fingerprint : Certificate → Bytes
  cert_fingerprint cert = if length cert.raw == 0 then [] else sha1 cert.raw

  pub cert_hex_fingerprint : Certificate → Text
  cert_hex_fingerprint cert = encode_hex (cert_fingerprint cert)

  pub cert_has_fingerprint : Certificate → Bytes → Bool
  cert_has_fingerprint cert fpr =
      if length fpr == 0 then false else has_suffix (cert_fingerprint cert) fpr
