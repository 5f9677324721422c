-- ===== src/Cert.antt =====
-- The fields of x509.Certificate that the source reads, and the identities of certstore/certstore.go.
-- The parsing of certificates belongs to crypto/x509 and is not modelled: a value of this record is
-- what the library hands out.
pub mod Samples
use git_kmssign.Base.{ℕ, List, Option, Bytes, Bool}
use git_kmssign.Base.Text.{Text}
use git_kmssign.Base.Int.{ℤ}

-- asn1.ObjectIdentifier.
abbrev pub Oid : Type 0
Oid = List ℕ

-- pkix.AttributeTypeAndValue: a value that is no string is `none`.
pub record NameAttribute : Type 0 where
  pub kind : Oid
  pub value : Option Text

-- pkix.Extension.
pub record Extension : Type 0 where
  pub id : Oid
  pub value : Bytes

-- crypto.Hash, the values that the source names.
pub data Hash : Type 0 where
  md5 sha1 sha256 sha384 sha512 : Hash

-- x509.SignatureAlgorithm, the values that the source tells apart.
pub data SignatureAlgorithm : Type 0 where
  sha1_with_rsa sha256_with_rsa sha384_with_rsa sha512_with_rsa : SignatureAlgorithm
  ecdsa_with_sha1 ecdsa_with_sha256 ecdsa_with_sha384 ecdsa_with_sha512 : SignatureAlgorithm
  md5_with_rsa dsa_with_sha1 : SignatureAlgorithm
  unknown_signature_algorithm : SignatureAlgorithm
  other_signature_algorithm : ℕ → SignatureAlgorithm

-- x509.PublicKeyAlgorithm, the keys of the table in oid.go.
pub data PublicKeyAlgorithm : Type 0 where
  rsa ecdsa dsa : PublicKeyAlgorithm
  other_key : ℕ → PublicKeyAlgorithm

pub record Certificate : Type 0 where
  pub raw : Bytes
  pub raw_issuer : Bytes
  pub raw_subject : Bytes
  pub serial_number : ℤ
  pub subject : Text
  pub subject_names : List NameAttribute
  pub email_addresses : List Text
  pub issuing_certificate_url : List Text
  pub extensions : List Extension
  pub signature_algorithm : SignatureAlgorithm
  pub public_key_algorithm : PublicKeyAlgorithm
  -- x509.MarshalPKIXPublicKey of the key.
  pub public_key : Bytes
  -- Seconds since the epoch.
  pub not_before : ℤ
  pub not_after : ℤ

-- certstore.Identity: what Certificate, CertificateChain and Signer give; `none` is an error. A
-- signer is known by its public key.
pub record Identity : Type 0 where
  pub certificate : Option Certificate
  pub certificate_chain : Option (List Certificate)
  pub signer : Option Bytes
