-- ===== src/Cms/RoundTrip/Verified.antt =====
-- What ietf-cms/sign.go signs, ietf-cms/verify.go accepts.
use git_kmssign.Base.{
  ◌≡◌, refl, sym, ap, ◌∙◌, subst, Bool, true, false, not, List, [], Bytes, some, Result, ok,
  fail_if, or_err, >>=-eq-ok, or_err-eq-ok, ok-injective, already_detached, signing_failed,
  unsupported, unsupported_key_algorithm,
}
use git_kmssign.Base.Int.{pos}
use git_kmssign.Cert.{Oid, Hash, Certificate, SignatureAlgorithm}
use git_kmssign.Oids.{
  look_up, digest_algorithm_sha256, digest_algorithm_to_crypto_hash,
  crypto_hash_to_digest_algorithm, signature_algorithm_to_x509_signature_algorithm,
  x509_signature_algorithm_to_digest_algorithm,
  x509_public_key_and_digest_algorithm_to_signature_algorithm,
}
use git_kmssign.Oids.Correct.{chosen_signature_algorithm}
use git_kmssign.Protocol.{
  AlgorithmIdentifier, algorithm_of, EncapsulatedContentInfo, SignerInfo, SignedData, Asn1,
}
use git_kmssign.Protocol.Attributes.{get_values}
use git_kmssign.Protocol.Content.{e_content_value}
use git_kmssign.Protocol.Signers.{signer_hash, x509_signature_algorithm, find_certificate}
use git_kmssign.Protocol.Signing.{
  Crypto, Signer, digest_algorithm_for_public_key, new_issuer_and_serial_number,
  unsigned_signer_info, sign_signer_info, signed_attributes, marshaled_for_signing,
}
use git_kmssign.Protocol.Signing.Attributes.{AreSigned}
use git_kmssign.Protocol.Signing.Correct.{IsSigned}
use git_kmssign.Timestamp.{Asn1Time}
use git_kmssign.Cms.Options.{Pool, VerifyOptions, CertChains, X509}
use git_kmssign.Cms.RoundTrip.{ReadsBack, FitsContent, ChecksSignatures}
use git_kmssign.Cms.RoundTrip.Attributes.{signed_attributes-found}
use git_kmssign.Cms.Timestamps.{has_timestamp}
use git_kmssign.Cms.Verify.{is_unknown}
use git_kmssign.Cms.Verify.Correct.{over_attributes, StandsFor, untimed, Verified}

-- A signer that was not signed yet, as AddSignerInfo makes it for a certificate.
pub record IsFor (asn1 : Asn1) (cert : Certificate) (si : SignerInfo) : Type 0 where
  pub oid : Oid
  pub is_version : si.version ≡ pos 1
  pub is_sid : new_issuer_and_serial_number asn1 cert ≡ ok si.sid
  pub is_digest : si.digest_algorithm ≡ algorithm_of digest_algorithm_sha256
  pub is_algorithm : si.signature_algorithm ≡ algorithm_of oid
  pub is_chosen :
      look_up
        (x509_public_key_and_digest_algorithm_to_signature_algorithm cert.public_key_algorithm)
        digest_algorithm_sha256
      ≡ some oid
  pub is_unstamped : si.unsigned_attrs ≡ []

is_unknown-known :
    (algorithm : SignatureAlgorithm) {digest : Oid}
    → x509_signature_algorithm_to_digest_algorithm algorithm ≡ some digest
    → is_unknown algorithm ≡ false
unfolding x509_signature_algorithm_to_digest_algorithm
is_unknown-known SignatureAlgorithm.unknown_signature_algorithm h = cc
is_unknown-known SignatureAlgorithm.sha1_with_rsa h = refl
is_unknown-known SignatureAlgorithm.sha256_with_rsa h = refl
is_unknown-known SignatureAlgorithm.sha384_with_rsa h = refl
is_unknown-known SignatureAlgorithm.sha512_with_rsa h = refl
is_unknown-known SignatureAlgorithm.ecdsa_with_sha1 h = refl
is_unknown-known SignatureAlgorithm.ecdsa_with_sha256 h = refl
is_unknown-known SignatureAlgorithm.ecdsa_with_sha384 h = refl
is_unknown-known SignatureAlgorithm.ecdsa_with_sha512 h = refl
is_unknown-known SignatureAlgorithm.md5_with_rsa h = refl
is_unknown-known SignatureAlgorithm.dsa_with_sha1 h = refl
is_unknown-known (SignatureAlgorithm.other_signature_algorithm n) h = refl

is_unknown-some :
    (algorithm known : SignatureAlgorithm)
    → algorithm ≡ known
    → is_unknown known ≡ false
    → is_unknown algorithm ≡ false
is_unknown-some algorithm known e h = rw e h

-- The algorithm that is chosen for a certificate's key is known to the verifier.
IsFor-algorithm :
    (asn1 : Asn1) (cert : Certificate) (si : SignerInfo) (f : IsFor asn1 cert si)
    → (algorithm : SignatureAlgorithm) × (look_up signature_algorithm_to_x509_signature_algorithm
          f.oid
        ≡ some algorithm)
      × (x509_signature_algorithm si ≡ algorithm)
      × (is_unknown (x509_signature_algorithm si) ≡ false)
unfolding x509_signature_algorithm crypto_hash_to_digest_algorithm look_up
IsFor-algorithm asn1 cert si f =
    let (algorithm, known, digest) =
      chosen_signature_algorithm cert.public_key_algorithm Hash.sha256 f.oid f.is_chosen in
    let found : look_up signature_algorithm_to_x509_signature_algorithm
          si.signature_algorithm.algorithm
        ≡ some algorithm =
      subst
        (λ (a : AlgorithmIdentifier).
          look_up signature_algorithm_to_x509_signature_algorithm a.algorithm ≡ some algorithm)
        (sym f.is_algorithm) known in
    let is_it : x509_signature_algorithm si ≡ algorithm = rw found refl in
    (algorithm, known, is_it, is_unknown-some _ algorithm is_it (is_unknown-known algorithm digest))

-- Its hash is SHA-256.
IsFor-hash :
    (asn1 : Asn1) (available : Hash → Bool) (cert : Certificate) (si : SignerInfo) (hash : Hash)
    → IsFor asn1 cert si
    → signer_hash available si ≡ ok hash
    → Hash.sha256 ≡ hash
unfolding signer_hash look_up
IsFor-hash asn1 available cert si hash f h =
    let (found, e₁, h₁) =
      >>=-eq-ok
        (or_err (look_up digest_algorithm_to_crypto_hash si.digest_algorithm.algorithm) unsupported)
        _ h in
    let (_, _, h₂) = >>=-eq-ok (fail_if (not (available found)) unsupported) _ h₁ in
    let this : look_up digest_algorithm_to_crypto_hash digest_algorithm_sha256 ≡ some found =
      subst
        (λ (a : AlgorithmIdentifier).
          look_up digest_algorithm_to_crypto_hash a.algorithm ≡ some found)
        f.is_digest (or_err-eq-ok _ unsupported e₁) in
    let first : Hash.sha256 ≡ found = cc in first ∙ ok-injective h₂

module _ (asn1 : Asn1) (crypto : Crypto) where
  pub unsigned_signer_info-IsFor :
      (cert : Certificate) (key : Bytes) (si : SignerInfo)
      → unsigned_signer_info asn1 crypto cert key ≡ ok si
      → IsFor asn1 cert si
  unfolding unsigned_signer_info digest_algorithm_for_public_key
  unsigned_signer_info-IsFor cert key si h =
      let (sid, e₁, h₁) = >>=-eq-ok (new_issuer_and_serial_number asn1 cert) _ h in
      let (oid, e₂, h₂) = >>=-eq-ok (or_err (look_up _ _) unsupported_key_algorithm) _ h₁ in
      subst (IsFor asn1 cert) (ok-injective h₂) (record {
        oid = oid;
        is_version = refl;
        is_sid = e₁;
        is_digest = refl;
        is_algorithm = refl;
        is_chosen = or_err-eq-ok _ unsupported_key_algorithm e₂;
        is_unstamped = refl;
      })

  pub sign_signer_info-IsFor :
      (signer : Signer) (sd : SignedData) (cert : Certificate) (si si' : SignerInfo)
      → IsFor asn1 cert si
      → sign_signer_info asn1 crypto signer sd si ≡ ok si'
      → IsFor asn1 cert si'
  unfolding sign_signer_info
  sign_signer_info-IsFor signer sd cert si si' f h =
      let (value, _, h₁) = >>=-eq-ok (e_content_value asn1 sd.encap_content_info) _ h in
      let (content, _, h₂) = >>=-eq-ok (or_err value already_detached) _ h₁ in
      let (hash, _, h₃) = >>=-eq-ok (signer_hash crypto.available si) _ h₂ in
      let (attrs, _, h₄) =
        >>=-eq-ok (signed_attributes asn1 crypto _ (crypto.digest hash content)) _ h₃ in
      let (sm, _, h₅) = >>=-eq-ok (marshaled_for_signing asn1 attrs) _ h₄ in
      let (signature, _, h₆) =
        >>=-eq-ok (or_err (signer.sign (crypto.digest hash sm) hash) signing_failed) _ h₅ in
      subst (IsFor asn1 cert) (ok-injective h₆) (record {
        oid = f.oid;
        is_version = f.is_version;
        is_sid = f.is_sid;
        is_digest = f.is_digest;
        is_algorithm = f.is_algorithm;
        is_chosen = f.is_chosen;
        is_unstamped = f.is_unstamped;
      })

  has_timestamp-none :
      (time : Asn1Time) (si : SignerInfo)
      → si.unsigned_attrs ≡ []
      → has_timestamp asn1 time crypto si ≡ ok false
  unfolding has_timestamp get_values
  has_timestamp-none time si h = rw h refl

  module _ (time : Asn1Time) (x509 : X509) (nested : VerifyOptions → SignedData → Result Pool) where
    -- A signer that was made for a certificate and signed is good, in any message with the type of the
    -- content.
    pub IsSigned-Verified :
        (signer : Signer) (eci : EncapsulatedContentInfo) (sd : SignedData) (si : SignerInfo)
        (cert : Certificate) (certs : List Certificate) (opts : VerifyOptions) (chains : CertChains)
        (content : Bytes)
        → ReadsBack asn1
        → FitsContent asn1 crypto eci.e_content_type content
        → ChecksSignatures crypto x509 signer cert
        → find_certificate asn1 si certs ≡ ok cert
        → crypto.certificate_key cert ≡ signer.public_key
        → IsFor asn1 cert si
        → IsSigned asn1 crypto signer eci si
        → e_content_value asn1 eci ≡ ok (some content)
        → sd.encap_content_info.e_content_type ≡ eci.e_content_type
        → x509.verify cert opts ≡ some chains
        → Verified asn1 time crypto x509 nested content sd certs opts si chains opts.intermediates
    IsSigned-Verified signer eci sd si cert certs opts chains content reads fits checks is_cert
          is_key f s is_content kind built =
        let same : s.content ≡ content = cc in
        let (algorithm, known, is_algorithm, is_known) = IsFor-algorithm asn1 cert si f in
        let sha256 = IsFor-hash asn1 crypto.available cert si s.hash f s.is_hash in
        let (found_kind, found_digest) =
          signed_attributes-found asn1 reads crypto eci.e_content_type _ s.attributes si
            fits.kind_lem s.is_attributes s.has_attributes in
        let made : AreSigned asn1 crypto eci.e_content_type (crypto.digest Hash.sha256 content)
            s.attributes =
          subst
            (λ x. AreSigned asn1 crypto eci.e_content_type (crypto.digest x content) s.attributes)
            (sym sha256)
            (subst
              (λ x. AreSigned asn1 crypto eci.e_content_type (crypto.digest s.hash x) s.attributes)
              same s.are_signed) in
        let message = fits.order_lem s.attributes s.marshaled made s.is_marshaled in
        record {
          message = s.marshaled;
          cert = cert;
          used = opts;
          is_message =
              subst
                (λ attrs.
                  StandsFor asn1 time crypto x509 content sd.encap_content_info si attrs
                    s.marshaled)
                (sym s.has_attributes)
                (over_attributes (found_kind ∙ ap ok (sym kind)) s.is_hash
                  (found_digest ∙ ap (λ c. ok (crypto.digest s.hash c)) same) message);
          is_cert = is_cert;
          is_known = is_known;
          is_signature =
              subst (λ a. x509.check_signature cert a s.marshaled si.signature ≡ true)
                (sym is_algorithm)
                (checks f.oid algorithm s.marshaled si.signature is_key f.is_chosen known (
                  subst (λ h. signer.sign (crypto.digest h s.marshaled) h ≡ some si.signature)
                    (sym sha256) s.is_signature));
          is_timed = untimed (has_timestamp-none time si f.is_unstamped);
          is_chain = built;
          is_pool = refl;
        }
