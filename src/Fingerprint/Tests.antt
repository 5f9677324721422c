-- ===== src/Fingerprint/Tests.antt =====
-- The theorems on fingerprints of utils.go at concrete inputs.
use git_kmssign.Base.{◌≡◌, refl, true, [], ◌∷◌, Bytes, arith}
use git_kmssign.Cert.Samples.{sample_sha1, leaf}
use git_kmssign.Fingerprint.{normalize_fingerprint, cert_fingerprint, cert_has_fingerprint}
use git_kmssign.Fingerprint.Hex.{encode_hex}
use git_kmssign.Fingerprint.Correct.{cert_has_fingerprint-printed}

-- The last two bytes of the sample hash of the leaf.
abbrev tail_bytes : Bytes
tail_bytes = 3 ∷ 4 ∷ []

cert_has_fingerprint-printed_example :
    (cert_has_fingerprint sample_sha1 leaf (normalize_fingerprint (encode_hex (3 ∷ 4 ∷ []))) ≡ true)
    × (cert_has_fingerprint sample_sha1 leaf
          (normalize_fingerprint (b'0' ∷ b'x' ∷ encode_hex (3 ∷ 4 ∷ [])))
        ≡ true)
cert_has_fingerprint-printed_example =
    cert_has_fingerprint-printed sample_sha1 leaf (0x5c ∷ []) (3 ∷ 4 ∷ [])
      (unfold cert_fingerprint in refl) (omega arith, (omega arith, tt)) (λ e. cc)
