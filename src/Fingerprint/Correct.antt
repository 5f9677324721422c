-- ===== src/Fingerprint/Correct.antt =====
-- The fingerprint that is printed for a certificate, read back as a --local-user value.
use git_kmssign.Base.{
  ℕ, ◌-◌, ◌%◌, ◌≡◌, ◌≢◌, ◌↔◌, refl, sym, ap, ◌∙◌, true, false, [], ◌∷◌, ◌++◌, Bytes, length, take,
  suc, Option, none, some, leb, ◌==◌, arith, bytes_eq_iff, bytes_eq_refl, &&-split,
  take-append-drop, length-append, drop-append,
}
use git_kmssign.Base.Text.{Text}
use git_kmssign.Cert.{Certificate}
use git_kmssign.Fingerprint.{
  strip_0x, normalize_fingerprint, has_suffix, cert_fingerprint, cert_has_fingerprint,
}
use git_kmssign.Fingerprint.Hex.{
  IsBytes, encode_hex, decode_hex, decode_hex-encode_hex, hex_digit-x,
}

strip_0x-encode_hex : (bs : Bytes) → IsBytes bs → strip_0x (encode_hex bs) ≡ encode_hex bs
unfolding strip_0x encode_hex
strip_0x-encode_hex [] h = refl
strip_0x-encode_hex (b ∷ bs) (hb, hbs) = ground (arith, hex_digit-x (b % 16) (omega arith))

abbrev or_empty : Option Bytes → Bytes
or_empty none = []
or_empty (some fpr) = fpr

normalize_fingerprint_lem :
    (s : Text) → normalize_fingerprint s ≡ or_empty (decode_hex (strip_0x s))
unfolding normalize_fingerprint strip_0x decode_hex
normalize_fingerprint_lem [] = refl
normalize_fingerprint_lem (c ∷ []) = refl
normalize_fingerprint_lem (c ∷ d ∷ cs) = ground arith

-- Hex digits, with or without 0x in front, are read as the bytes that they encode.
pub normalize_fingerprint-encode_hex :
    (bs : Bytes)
    → IsBytes bs
    → (normalize_fingerprint (encode_hex bs) ≡ bs)
      × (normalize_fingerprint (b'0' ∷ b'x' ∷ encode_hex bs) ≡ bs)
normalize_fingerprint-encode_hex bs h = (
  rw (normalize_fingerprint_lem, strip_0x-encode_hex bs h, decode_hex-encode_hex bs h) refl,
  rw normalize_fingerprint_lem (unfold strip_0x in rw (decode_hex-encode_hex bs h) refl),
)

has_suffix_iff :
    (s suffix : Bytes) → (has_suffix s suffix ≡ true) ↔ ((front : Bytes) × (s ≡ front ++ suffix))
has_suffix_iff s suffix = (
  λ h.
      let (short, same) = &&-split _ _ h in
      let e = (bytes_eq_iff _ suffix).0 same in
      let k : ℕ = length s - length suffix in
      (take k s, sym (take-append-drop k s) ∙ ap (λ t. take k s ++ t) e),
  λ (front, e).
      let size = length-append front suffix in
      let short : leb (length suffix) (length (front ++ suffix)) ≡ true = ground arith in
      let at =
        drop-append 0 (front ++ suffix) front suffix (length (front ++ suffix) - length suffix) refl
          (omega arith) in
      rw (e, short, at, bytes_eq_refl) refl,
)

-- A certificate has a fingerprint exactly if that is not empty and ends the certificate's own.
pub cert_has_fingerprint_iff :
    (sha1 : Bytes → Bytes) (cert : Certificate) (fpr : Bytes)
    → (cert_has_fingerprint sha1 cert fpr ≡ true)
      ↔ ((fpr ≢ []) × ((front : Bytes) × (cert_fingerprint sha1 cert ≡ front ++ fpr)))
unfolding cert_has_fingerprint
cert_has_fingerprint_iff sha1 cert [] = (λ h. cc, λ (h, e). absurd (h refl))
cert_has_fingerprint_iff sha1 cert (b ∷ fpr) =
    let (to, back) = has_suffix_iff (cert_fingerprint sha1 cert) (b ∷ fpr) in
    let some_digits : (suc (length fpr) == 0) ≡ false = ground arith in
    (λ h. (λ e. cc, to (rw some_digits at h)), λ (_, h). rw some_digits (back h))

-- The ID that --list-keys and the status lines print for a certificate, given with or without 0x,
-- names that certificate, and so does every tail of an even number of its digits: here `fpr` ends
-- the fingerprint.
pub cert_has_fingerprint-printed :
    (sha1 : Bytes → Bytes) (cert : Certificate) (front fpr : Bytes)
    → cert_fingerprint sha1 cert ≡ front ++ fpr
    → IsBytes fpr
    → fpr ≢ []
    → (cert_has_fingerprint sha1 cert (normalize_fingerprint (encode_hex fpr)) ≡ true)
      × (cert_has_fingerprint sha1 cert (normalize_fingerprint (b'0' ∷ b'x' ∷ encode_hex fpr))
          ≡ true)
cert_has_fingerprint-printed sha1 cert front fpr e h ne =
    let (plain, prefixed) = normalize_fingerprint-encode_hex fpr h in
    let has = (cert_has_fingerprint_iff sha1 cert fpr).1 (ne, (front, e)) in
    (rw plain has, rw prefixed has)
