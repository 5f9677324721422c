-- ===== src/Protocol/Signers.antt =====
-- The methods of SignerInfo in ietf-cms/protocol/protocol.go.
pub mod Correct
use git_kmssign.Base.{
  ℕ, zero, suc, Bool, true, false, not, ◌||◌, ◌&&◌, List, [], ◌∷◌, length, ltb, Bytes, ◌==◌,
  bytes_eq, if◌then◌else◌, Option, none, some, Result, ok, err, ◌>>=◌, ◌>>◌, fail_if, or_err,
  asn1_failed, wrong_type, trailing_data, unsupported, no_certificate_found, bad_tag_or_class,
}
use git_kmssign.Base.Int.{ℤ, pos, negsuc}
use git_kmssign.Cert.{
  Oid, Hash, Certificate, Extension, SignatureAlgorithm, unknown_signature_algorithm,
}
use git_kmssign.Oids.{
  look_up, digest_algorithm_to_crypto_hash, signature_algorithm_to_x509_signature_algorithm,
  public_key_and_digest_algorithm_to_x509_signature_algorithm, extension_subject_key_identifier,
  attribute_content_type, attribute_message_digest, attribute_signing_time,
}
use git_kmssign.Protocol.{RawValue, Attribute, IssuerAndSerialNumber, SignerInfo, Asn1}
use git_kmssign.Protocol.Attributes.{class_universal, get_only_attribute_value_bytes, has_attribute}

abbrev pub tag_octet_string : ℕ
tag_octet_string = 4

abbrev pub tag_sequence : ℕ
tag_sequence = 16

abbrev pub tag_utc_time : ℕ
tag_utc_time = 23

abbrev pub tag_generalized_time : ℕ
tag_generalized_time = 24

abbrev pub class_context_specific : ℕ
class_context_specific = 2

-- si.SignedAttrs in a loop, where nil is empty.
abbrev pub attrs_of : SignerInfo → List Attribute
attrs_of si = elim si.signed_attrs [ none ↦ [] | some attrs ↦ attrs ]

-- asn1.Unmarshal, and an error for bytes behind the value.
abbrev pub whole : {A : Type 0} → Option (A × Bytes) → Result A
whole none = err asn1_failed
whole (some (a, [])) = ok a
whole (some (a, _ ∷ _)) = err trailing_data

-- a.Cmp(b) == 0
unfoldable pub eq_ℤ : ℤ → ℤ → Bool
eq_ℤ (pos m) (pos n) = m == n
eq_ℤ (negsuc m) (negsuc n) = m == n
eq_ℤ _ _ = false

-- The condition of the loop over certificates for version 1.
unfoldable pub is_issued : IssuerAndSerialNumber → Certificate → Bool
is_issued isn cert =
    bytes_eq cert.raw_issuer isn.issuer.full_bytes && eq_ℤ isn.serial_number cert.serial_number

-- The loop over the extensions for version 3.
pub has_key_identifier : Bytes → List Extension → Bool
has_key_identifier ski [] = false
has_key_identifier ski (ext ∷ exts) =
    (bytes_eq extension_subject_key_identifier ext.id && bytes_eq ski ext.value)
    || has_key_identifier ski exts

-- The loops over certificates, which return at the first for which the condition holds.
unfoldable pub first_certificate : (Certificate → Bool) → List Certificate → Option Certificate
first_certificate p [] = none
first_certificate p (cert ∷ certs) = if p cert then some cert else first_certificate p certs

unfoldable pub subject_key_identifier_sid : SignerInfo → Result Bytes
subject_key_identifier_sid si = do
  fail_if (not (si.sid.tag_class == class_context_specific) || not (si.sid.tag == 0)) wrong_type
  ok si.sid.bytes

-- Hash; `available` is Hash.Available of crypto, which tells the hashes that are linked in.
unfoldable pub signer_hash : (Hash → Bool) → SignerInfo → Result Hash
signer_hash available si = do
  hash ← or_err (look_up digest_algorithm_to_crypto_hash si.digest_algorithm.algorithm) unsupported
  fail_if (not (available hash)) unsupported
  ok hash

-- A missing key gives the zero value, UnknownSignatureAlgorithm.
abbrev or_unknown : Option SignatureAlgorithm → SignatureAlgorithm
or_unknown none = unknown_signature_algorithm
or_unknown (some algorithm) = algorithm

unfoldable pub x509_signature_algorithm : SignerInfo → SignatureAlgorithm
x509_signature_algorithm si =
    let sig_oid = si.signature_algorithm.algorithm in
    elim (look_up signature_algorithm_to_x509_signature_algorithm sig_oid) [
      | some algorithm ↦ algorithm
      | none ↦ or_unknown (
          look_up (public_key_and_digest_algorithm_to_x509_signature_algorithm sig_oid)
            si.digest_algorithm.algorithm)
    ]

module _ (asn1 : Asn1) where
  unfoldable pub issuer_and_serial_number_sid : SignerInfo → Result IssuerAndSerialNumber
  issuer_and_serial_number_sid si = do
    fail_if (not (si.sid.tag_class == class_universal) || not (si.sid.tag == tag_sequence))
        wrong_type
    whole (asn1.unmarshal_issuer_and_serial si.sid.full_bytes)

  -- FindCertificate, by the version.
  unfoldable pub find_certificate_by : ℤ → SignerInfo → List Certificate → Result Certificate
  find_certificate_by (pos (suc zero)) si certs = do
    isn ← issuer_and_serial_number_sid si
    or_err (first_certificate (is_issued isn) certs) no_certificate_found
  find_certificate_by (pos (suc (suc (suc zero)))) si certs = do
    ski ← subject_key_identifier_sid si
    or_err (first_certificate (λ (c : Certificate). has_key_identifier ski c.extensions) certs)
        no_certificate_found
  find_certificate_by _ si certs = err unsupported

  unfoldable pub find_certificate : SignerInfo → List Certificate → Result Certificate
  find_certificate si certs = find_certificate_by si.version si certs

  unfoldable pub get_content_type_attribute : SignerInfo → Result Oid
  get_content_type_attribute si = do
    rv ← get_only_attribute_value_bytes asn1 (attrs_of si) attribute_content_type
    whole (asn1.unmarshal_oid rv.full_bytes)

  unfoldable pub get_message_digest_attribute : SignerInfo → Result Bytes
  get_message_digest_attribute si = do
    rv ← get_only_attribute_value_bytes asn1 (attrs_of si) attribute_message_digest
    fail_if (not (rv.tag_class == class_universal) || not (rv.tag == tag_octet_string))
        bad_tag_or_class
    ok rv.bytes

  -- `none` is the zero time, for a signer with no such attribute.
  pub get_signing_time_attribute : SignerInfo → Result (Option ℤ)
  get_signing_time_attribute si =
      let read = do
        rv ← get_only_attribute_value_bytes asn1 (attrs_of si) attribute_signing_time
        fail_if
            (not (rv.tag_class == class_universal)
              || (not (rv.tag == tag_utc_time) && not (rv.tag == tag_generalized_time)))
            bad_tag_or_class
        t ← whole (asn1.unmarshal_time rv.full_bytes)
        ok (some t)
      in if has_attribute (attrs_of si) attribute_signing_time then read else ok none
