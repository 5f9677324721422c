-- ===== src/Protocol/Signed.antt =====
-- SignedData of ietf-cms/protocol/protocol.go and of ietf-cms/signed_data.go: making one, and its digest
-- algorithms and certificates.
pub mod Correct
pub mod Left
use git_kmssign.Base.{
  ℕ, Bool, true, false, not, ◌||◌, List, [], ◌∷◌, ◌++◌, Bytes, ◌==◌, bytes_eq, if◌then◌else◌,
  Option, none, some, Result, ok, err, ◌>>=◌, ◌>>◌, fail_if, or_err, asn1_failed, unsupported,
  certificate_already_added, parsing_failed,
}
use git_kmssign.Base.Int.{ℤ, pos}
use git_kmssign.Cert.{Oid, Certificate}
use git_kmssign.Oids.{content_type_data}
use git_kmssign.Protocol.{RawValue, AlgorithmIdentifier, EncapsulatedContentInfo, SignedData, Asn1}
use git_kmssign.Protocol.Attributes.{class_universal}
use git_kmssign.Protocol.Signers.{tag_sequence}

pub is_type_data : EncapsulatedContentInfo → Bool
is_type_data eci = bytes_eq eci.e_content_type content_type_data

-- It always returns a nil error.
pub new_signed_data : EncapsulatedContentInfo → SignedData
new_signed_data eci = record {
  version = if not (is_type_data eci) then pos 3 else pos 1;
  digest_algorithms = [];
  encap_content_info = eci;
  certificates = none;
  crls = [];
  signer_infos = [];
}

unfoldable pub has_digest_algorithm : List AlgorithmIdentifier → AlgorithmIdentifier → Bool
has_digest_algorithm [] algo = false
has_digest_algorithm (existing ∷ algos) algo =
    bytes_eq existing.algorithm algo.algorithm || has_digest_algorithm algos algo

unfoldable pub add_digest_algorithm : AlgorithmIdentifier → SignedData → SignedData
add_digest_algorithm algo sd =
    if has_digest_algorithm sd.digest_algorithms algo
    then sd
    else record sd { digest_algorithms = sd.digest_algorithms ++ (algo ∷ []) }

pub clear_certificates : SignedData → SignedData
clear_certificates sd = record sd { certificates = some [] }

-- The certificates, with nil as an empty list, for the loop and for append.
abbrev pub or_nil : Option (List RawValue) → List RawValue
or_nil none = []
or_nil (some certs) = certs

-- The loop of AddCertificate, which compares the contents without tag and length.
unfoldable pub is_added : List RawValue → Bytes → Bool
is_added [] raw = false
is_added (existing ∷ others) raw = bytes_eq existing.bytes raw || is_added others raw

module _ (asn1 : Asn1) where
  unfoldable pub add_certificate : Certificate → SignedData → Result SignedData
  add_certificate cert sd = do
    fail_if (is_added (or_nil sd.certificates) cert.raw) certificate_already_added
    (rv, _) ← or_err (asn1.unmarshal_raw cert.raw) asn1_failed
    ok (record sd { certificates = some (or_nil sd.certificates ++ (rv ∷ [])) })

  -- The loop of SetCertificates.
  pub add_certificates : List Certificate → SignedData → Result SignedData
  add_certificates [] sd = ok sd
  add_certificates (cert ∷ certs) sd = do sd' ← add_certificate cert sd; add_certificates certs sd'

  -- SetCertificates of ietf-cms/signed_data.go: the message behind it, where it succeeds.
  pub set_certificates : List Certificate → SignedData → Result SignedData
  set_certificates certs sd = add_certificates certs (clear_certificates sd)

-- x509.ParseCertificate is a parameter.
module _ (parse_certificate : Bytes → Option Certificate) where
  -- The loop of X509Certificates.
  unfoldable pub parse_all : List RawValue → Result (List Certificate)
  parse_all [] = ok []
  parse_all (raw ∷ raws) = do
    fail_if (not (raw.tag_class == class_universal) || not (raw.tag == tag_sequence)) unsupported
    cert ← or_err (parse_certificate raw.full_bytes) parsing_failed
    certs ← parse_all raws
    ok (cert ∷ certs)

  -- nil and an empty slice are both [].
  unfoldable pub x509_certificates : SignedData → Result (List Certificate)
  x509_certificates sd = parse_all (or_nil sd.certificates)

-- Detached and IsDetached of ietf-cms/signed_data.go.
unfoldable pub detached : SignedData → SignedData
detached sd = record sd { encap_content_info = record sd.encap_content_info { e_content = none } }

unfoldable pub is_detached : SignedData → Bool
is_detached sd = elim sd.encap_content_info.e_content [ none ↦ true | some _ ↦ false ]
