-- ===== src/Cms/RoundTrip.antt =====
-- What a signature that ietf-cms/sign.go makes needs of the libraries to be accepted by ietf-cms/verify.go.
pub mod Attributes
pub mod Certificates
pub mod Verified
pub mod Correct
mod Tests
use git_kmssign.Base.{ℕ, ◌≡◌, ◌≢◌, List, [], ◌∷◌, All, Bytes, Option, none, some, ok, true}
use git_kmssign.Cert.{Oid, Hash, Certificate, SignatureAlgorithm}
use git_kmssign.Oids.{
  look_up, digest_algorithm_sha256, signature_algorithm_to_x509_signature_algorithm,
  x509_public_key_and_digest_algorithm_to_signature_algorithm,
}
use git_kmssign.Protocol.{RawValue, Attribute, IssuerAndSerialNumber, Asn1}
use git_kmssign.Protocol.Messages.{marshaled_for_verification}
use git_kmssign.Protocol.Signing.{Crypto, Signer, marshaled_for_signing}
use git_kmssign.Protocol.Signing.Attributes.{AreSigned}
use git_kmssign.Cms.Options.{X509}

-- encoding/asn1 reads what it wrote.
pub record ReadsBack (asn1 : Asn1) : Type 0 where
  -- A raw value that was read is written as bytes that are read as that value.
  pub raw_lem :
      (der : Bytes) (rv : RawValue) (rest : Bytes)
      → asn1.unmarshal_raw der ≡ some (rv, rest)
      → (full : Bytes) × (asn1.marshal_raw rv ≡ some full)
        × (full ≢ [])
        × (asn1.unmarshal_raw full ≡ some (rv, []))
  pub octets_lem :
      (octets der : Bytes) (rv : RawValue) (rest : Bytes)
      → asn1.marshal_octets octets ≡ some der
      → asn1.unmarshal_raw der ≡ some (rv, rest)
      → (rv.tag_class ≡ 0) × (rv.tag ≡ 4) × (rv.bytes ≡ octets)
  -- The issuer was read itself.
  pub issuer_lem :
      (name : Bytes) (after : Bytes) (isn : IssuerAndSerialNumber) (der : Bytes) (rv : RawValue)
      (rest : Bytes)
      → asn1.unmarshal_raw name ≡ some (isn.issuer, after)
      → asn1.marshal_issuer_and_serial isn ≡ some der
      → asn1.unmarshal_raw der ≡ some (rv, rest)
      → (isn' : IssuerAndSerialNumber) × (rv.tag_class ≡ 0)
        × (rv.tag ≡ 16)
        × (asn1.unmarshal_issuer_and_serial rv.full_bytes ≡ some (isn', []))
        × (isn'.issuer.full_bytes ≡ isn.issuer.full_bytes)
        × (isn'.serial_number ≡ isn.serial_number)

-- The type of a content is read back, and the signed attributes for the content, sorted by their values,
-- are written in one order as a SET, which encoding/asn1 sorts, and as a SEQUENCE, which it does not.
pub record FitsContent (asn1 : Asn1) (crypto : Crypto) (kind : Oid) (content : Bytes) : Type 0 where
  pub kind_lem :
      (der : Bytes) (rv : RawValue) (rest : Bytes)
      → asn1.marshal_oid kind ≡ some der
      → asn1.unmarshal_raw der ≡ some (rv, rest)
      → asn1.unmarshal_oid rv.full_bytes ≡ some (kind, [])
  pub order_lem :
      (attrs : List Attribute) (message : Bytes)
      → AreSigned asn1 crypto kind (crypto.digest Hash.sha256 content) attrs
      → marshaled_for_signing asn1 attrs ≡ ok message
      → marshaled_for_verification asn1 attrs ≡ ok message

-- The fields Raw and RawIssuer of a certificate are whole encodings, and Raw is parsed as it.
pub record IsParsed (asn1 : Asn1) (x509 : X509) (cert : Certificate) : Type 0 where
  pub parse_lem :
      (rv : RawValue) (rest : Bytes)
      → asn1.unmarshal_raw cert.raw ≡ some (rv, rest)
      → (rv.tag_class ≡ 0) × (rv.tag ≡ 16) × (x509.parse_certificate rv.full_bytes ≡ some cert)
  pub raw_issuer_lem :
      (rv : RawValue) (rest : Bytes)
      → asn1.unmarshal_raw cert.raw_issuer ≡ some (rv, rest)
      → rv.full_bytes ≡ cert.raw_issuer

-- No other certificate has the issuer and serial number.
abbrev pub IsAlone : List Certificate → Certificate → Type 0
IsAlone chain cert =
    All
      (λ (c : Certificate).
        c.raw_issuer ≡ cert.raw_issuer → c.serial_number ≡ cert.serial_number → c ≡ cert)
      chain

-- A certificate with the signer's key checks what the signer signs, by the algorithm of the key and SHA-256.
abbrev pub ChecksSignatures : Crypto → X509 → Signer → Certificate → Type 0
ChecksSignatures crypto x509 signer cert =
    (oid : Oid) (algorithm : SignatureAlgorithm) (message signature : Bytes)
    → crypto.certificate_key cert ≡ signer.public_key
    → look_up
        (x509_public_key_and_digest_algorithm_to_signature_algorithm cert.public_key_algorithm)
        digest_algorithm_sha256
      ≡ some oid
    → look_up signature_algorithm_to_x509_signature_algorithm oid ≡ some algorithm
    → signer.sign (crypto.digest Hash.sha256 message) Hash.sha256 ≡ some signature
    → x509.check_signature cert algorithm message signature ≡ true
