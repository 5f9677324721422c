-- ===== src/Protocol/Signers/Correct.antt =====
-- FindCertificate of ietf-cms/protocol/protocol.go finds the certificate that the signer names.
use git_kmssign.Base.{
  ◌≡◌, refl, ap, zero, suc, Bool, true, false, List, [], ◌∷◌, ◌++◌, Bytes, bytes_eq_iff, ==_iff,
  Bool-cases, &&-split, ||-split, inl, inr, All, Any, ok, >>=-eq-ok, or_err, no_certificate_found,
}
use git_kmssign.Base.Int.{ℤ, pos, negsuc}
use git_kmssign.Cert.{Certificate, Extension}
use git_kmssign.Oids.{extension_subject_key_identifier}
use git_kmssign.Protocol.{IssuerAndSerialNumber, SignerInfo, Asn1}
use git_kmssign.Protocol.Signers.{
  eq_ℤ, is_issued, has_key_identifier, first_certificate, subject_key_identifier_sid,
  issuer_and_serial_number_sid, find_certificate_by, find_certificate,
}

eq_ℤ-eq : (a b : ℤ) → eq_ℤ a b ≡ true → a ≡ b
unfolding eq_ℤ
eq_ℤ-eq (pos m) (pos n) h = ap pos ((==_iff m n).0 h)
eq_ℤ-eq (negsuc m) (negsuc n) h = ap negsuc ((==_iff m n).0 h)
eq_ℤ-eq (pos m) (negsuc n) h = cc
eq_ℤ-eq (negsuc m) (pos n) h = cc

-- A certificate of an issuer, by its serial number.
abbrev pub IssuedAs : IssuerAndSerialNumber → Certificate → Type 0
IssuedAs isn cert =
    (cert.raw_issuer ≡ isn.issuer.full_bytes) × (isn.serial_number ≡ cert.serial_number)

-- A certificate with the extension that holds a key identifier.
abbrev pub HasKeyIdentifier : Bytes → Certificate → Type 0
HasKeyIdentifier ski cert =
    Any (λ (e : Extension). (extension_subject_key_identifier ≡ e.id) × (ski ≡ e.value))
      cert.extensions

is_issued-IssuedAs :
    (isn : IssuerAndSerialNumber) (cert : Certificate)
    → is_issued isn cert ≡ true
    → IssuedAs isn cert
unfolding is_issued
is_issued-IssuedAs isn cert h =
    let (issuer, serial) = &&-split _ _ h in ((bytes_eq_iff _ _).0 issuer, eq_ℤ-eq _ _ serial)

has_key_identifier-Any :
    (ski : Bytes) (exts : List Extension)
    → has_key_identifier ski exts ≡ true
    → Any (λ (e : Extension). (extension_subject_key_identifier ≡ e.id) × (ski ≡ e.value)) exts
unfolding has_key_identifier
has_key_identifier-Any ski [] h = cc
has_key_identifier-Any ski (e ∷ exts) h = elim (||-split _ (has_key_identifier ski exts) h) [
  | inl here ↦
      let (kind, value) = &&-split _ _ here in
      inl ((bytes_eq_iff _ _).0 kind, (bytes_eq_iff _ _).0 value)
  | inr later ↦ inr (has_key_identifier-Any ski exts later)
]

-- The first certificate that passes a test.
abbrev pub IsFirst : (Certificate → Bool) → List Certificate → Certificate → Type 0
IsFirst p certs cert =
    (front : List Certificate) × (back : List Certificate) × (certs ≡ front ++ (cert ∷ back))
    × All (λ c. p c ≡ false) front
    × (p cert ≡ true)

first_certificate-IsFirst :
    (p : Certificate → Bool) (certs : List Certificate) (cert : Certificate)
    → or_err (first_certificate p certs) no_certificate_found ≡ ok cert
    → IsFirst p certs cert
unfolding first_certificate
first_certificate-IsFirst p [] cert h = cc
first_certificate-IsFirst p (c ∷ certs) cert h = elim (Bool-cases (p c)) [
  | inl here ↦ let e : c ≡ cert = cc (rw here at h) in ([], certs, rw e refl, tt, cc)
  | inr there ↦
      let (front, back, e, all, holds) = first_certificate-IsFirst p certs cert (rw there at h) in
      (c ∷ front, back, ap (λ l. c ∷ l) e, (there, all), holds)
]

module _ (asn1 : Asn1) where
  -- The two ways in which a signer names a certificate, by the version of the signer.
  pub data Identifies (si : SignerInfo) (certs : List Certificate) (cert : Certificate)
      : ℤ → Type 0 where
    by_issuer :
        (isn : IssuerAndSerialNumber)
        → issuer_and_serial_number_sid asn1 si ≡ ok isn
        → IssuedAs isn cert
        → IsFirst (is_issued isn) certs cert
        → Identifies si certs cert (pos 1)
    by_key_identifier :
        (ski : Bytes)
        → subject_key_identifier_sid si ≡ ok ski
        → HasKeyIdentifier ski cert
        → IsFirst (λ (c : Certificate). has_key_identifier ski c.extensions) certs cert
        → Identifies si certs cert (pos 3)

  find_certificate_by-Identifies :
      (version : ℤ) (si : SignerInfo) (certs : List Certificate) (cert : Certificate)
      → find_certificate_by asn1 version si certs ≡ ok cert
      → Identifies si certs cert version
  unfolding find_certificate_by
  find_certificate_by-Identifies (pos (suc zero)) si certs cert h =
      let (isn, e, rest) = >>=-eq-ok (issuer_and_serial_number_sid asn1 si) _ h in
      let first = first_certificate-IsFirst (is_issued isn) certs cert rest in
      let (_, _, _, _, holds) = first in by_issuer isn e (is_issued-IssuedAs isn cert holds) first
  find_certificate_by-Identifies (pos (suc (suc (suc zero)))) si certs cert h =
      let (ski, e, rest) = >>=-eq-ok (subject_key_identifier_sid si) _ h in
      let first = first_certificate-IsFirst _ certs cert rest in
      let (_, _, _, _, holds) = first in
      by_key_identifier ski e (has_key_identifier-Any ski cert.extensions holds) first
  find_certificate_by-Identifies (pos zero) si certs cert h = cc
  find_certificate_by-Identifies (pos (suc (suc zero))) si certs cert h = cc
  find_certificate_by-Identifies (pos (suc (suc (suc (suc n))))) si certs cert h = cc
  find_certificate_by-Identifies (negsuc n) si certs cert h = cc

  -- A certificate that FindCertificate returns is the first one with the issuer and serial number, or
  -- with the key identifier, that the signer gives, by the signer's version, which is 1 or 3.
  pub find_certificate-Identifies :
      (si : SignerInfo) (certs : List Certificate) (cert : Certificate)
      → find_certificate asn1 si certs ≡ ok cert
      → Identifies si certs cert si.version
  unfolding find_certificate
  find_certificate-Identifies si certs cert h =
      find_certificate_by-Identifies si.version si certs cert h
