-- ===== src/Cms/RoundTrip/Correct.antt =====
-- What ietf-cms/sign.go signs, ietf-cms/verify.go accepts.
use git_kmssign.Base.{
  ℕ, ◌≡◌, refl, sym, ap, ◌∙◌, subst, List, [], ◌∷◌, ◌++◌, All, Any, Bytes, length, ◌==◌, Bool-cases,
  inl, inr, Option, none, some, Result, ok, or_err, >>=-eq-ok, or_err-eq-ok, ok-injective,
  public_key_failed, no_certificate_found,
}
use git_kmssign.Cert.{Certificate}
use git_kmssign.Protocol.{
  AlgorithmIdentifier, EncapsulatedContentInfo, SignerInfo, SignedData, Asn1,
}
use git_kmssign.Protocol.Content.{e_content_value}
use git_kmssign.Protocol.Signed.{
  add_digest_algorithm, has_digest_algorithm, or_nil, parse_all, x509_certificates, detached,
  is_detached,
}
use git_kmssign.Protocol.Signed.Correct.{add_digest_algorithm-keeps}
use git_kmssign.Protocol.Signing.{
  Crypto, Signer, unsigned_signer_info, sign_signer_info, add_chain, add_signer_info,
}
use git_kmssign.Protocol.Signing.Correct.{IsSigned, sign_signer_info-IsSigned, add_chain-Same}
use git_kmssign.Timestamp.{Asn1Time}
use git_kmssign.Cms.Options.{Pool, VerifyOptions, CertChains, X509}
use git_kmssign.Cms.RoundTrip.{ReadsBack, FitsContent, IsParsed, IsAlone, ChecksSignatures}
use git_kmssign.Cms.RoundTrip.Certificates.{
  add_chain-parse_all, IsFound, add_chain-IsFound, IsFound-All, find_certificate-found,
}
use git_kmssign.Cms.RoundTrip.Verified.{
  IsFor, unsigned_signer_info-IsFor, sign_signer_info-IsFor, IsSigned-Verified,
}
use git_kmssign.Cms.Sign.{sign_message}
use git_kmssign.Cms.Verify.{or_new_pool, verify, verify_detached, verify_token}
use git_kmssign.Cms.Verify.Accepts.{verify_iff, verify_detached_iff}
use git_kmssign.Cms.Verify.Correct.{all_verified, next_verified, VerifiedAll, Accepted}

add_digest_algorithm-certificates :
    (algo : AlgorithmIdentifier) (sd : SignedData)
    → (add_digest_algorithm algo sd).certificates ≡ sd.certificates
unfolding add_digest_algorithm
add_digest_algorithm-certificates algo sd =
    elim (Bool-cases (has_digest_algorithm sd.digest_algorithms algo)) [
      | inl present ↦ rw present refl
      | inr absent ↦ rw absent refl
    ]

-- The caller's options, with the chain behind the caller's intermediates.
abbrev pub with_chain : List Certificate → VerifyOptions → VerifyOptions
with_chain chain opts = record opts {
  intermediates = some (or_new_pool opts.intermediates ++ chain);
}

module _ (asn1 : Asn1) (crypto : Crypto) (x509 : X509) (signer : Signer)
    (chain : List Certificate) where
  -- crypto/x509 builds these chains of a certificate with the signer's key.
  abbrev pub BuildsChains : VerifyOptions → CertChains → Certificate → Type 0
  BuildsChains opts chains cert =
      crypto.certificate_key cert ≡ signer.public_key
      → x509.verify cert (with_chain chain opts) ≡ some chains

  -- A message with one signer, which was made and signed for a certificate of the chain.
  record IsMade (sd sd' : SignedData) : Type 0 where
    pub key : Bytes
    pub cert : Certificate
    pub si : SignerInfo
    pub is_signers : sd'.signer_infos ≡ si ∷ []
    pub is_content : sd'.encap_content_info ≡ sd.encap_content_info
    pub are_certs : parse_all x509.parse_certificate (or_nil sd'.certificates) ≡ ok chain
    pub is_found : Any (IsFound asn1 crypto x509 key cert) chain
    pub is_key : signer.public_key ≡ some key
    pub is_for : IsFor asn1 cert si
    pub is_signed : IsSigned asn1 crypto signer sd.encap_content_info si

  chain-IsFound :
      (key : Bytes) (sd sd' : SignedData) (found : Option Certificate) (cert : Certificate)
      → add_chain asn1 crypto key chain sd none ≡ ok (sd', found)
      → found ≡ some cert
      → Any (IsFound asn1 crypto x509 key cert) chain
  chain-IsFound key sd sd' found cert h e =
      elim (add_chain-IsFound asn1 crypto x509 key chain sd sd' none cert (rw e at h)) [
        | inl nothing ↦ cc
        | inr there ↦ there
      ]

  add_signer_info-IsMade :
      (sd sd' : SignedData)
      → All (IsParsed asn1 x509) chain
      → sd.certificates ≡ none
      → sd.signer_infos ≡ []
      → add_signer_info asn1 crypto chain signer sd ≡ ok sd'
      → IsMade sd sd'
  unfolding add_signer_info
  add_signer_info-IsMade sd sd' parsed no_certificates no_signers h =
      let (key, e₁, h₁) = >>=-eq-ok (or_err signer.public_key public_key_failed) _ h in
      let ((mid, found), e₂, h₂) = >>=-eq-ok (add_chain asn1 crypto key chain sd none) _ h₁ in
      let (cert, e₃, h₃) = >>=-eq-ok (or_err found no_certificate_found) _ h₂ in
      let (si, e₄, h₄) = >>=-eq-ok (unsigned_signer_info asn1 crypto cert key) _ h₃ in
      let (si', e₅, h₅) = >>=-eq-ok (sign_signer_info asn1 crypto signer mid si) _ h₄ in
      let (same, infos, _) = add_chain-Same asn1 crypto key chain sd mid none found e₂ in
      let (kept, kept_infos) = add_digest_algorithm-keeps si'.digest_algorithm mid in
      let nothing : parse_all x509.parse_certificate (or_nil sd.certificates) ≡ ok [] =
        rw no_certificates (unfold parse_all in refl) in
      subst (IsMade sd) (ok-injective h₅) (record {
        key = key;
        cert = cert;
        si = si';
        is_signers = ap (λ l. l ++ (si' ∷ [])) (kept_infos ∙ infos ∙ no_signers);
        is_content = kept ∙ same;
        are_certs =
            ap (λ c. parse_all x509.parse_certificate (or_nil c))
              (add_digest_algorithm-certificates si'.digest_algorithm mid)
            ∙ add_chain-parse_all asn1 crypto x509 key chain sd mid none found [] parsed e₂ nothing;
        is_found =
            chain-IsFound key sd mid found cert e₂ (or_err-eq-ok found no_certificate_found e₃);
        is_key = or_err-eq-ok signer.public_key public_key_failed e₁;
        is_for =
            sign_signer_info-IsFor asn1 crypto signer mid cert si si'
              (unsigned_signer_info-IsFor asn1 crypto cert key si e₄) e₅;
        is_signed =
            subst (λ eci. IsSigned asn1 crypto signer eci si') same
              (sign_signer_info-IsSigned asn1 crypto signer mid si si' e₅);
      })

  -- What holds of the chain holds of the signer's certificate.
  IsMade-All :
      (P : Certificate → Type 0) (sd sd' : SignedData) (m : IsMade sd sd')
      → All P chain
      → P m.cert × (crypto.certificate_key m.cert ≡ some m.key)
  IsMade-All P sd sd' m all = IsFound-All asn1 crypto x509 P m.key m.cert chain m.is_found all

  module _ (time : Asn1Time) where
    -- A message with those signers and certificates is accepted, with the content or without.
    IsMade-Accepted :
        (nested : VerifyOptions → SignedData → Result Pool) (sd sd' shown : SignedData)
        (opts : VerifyOptions) (chains : CertChains) (content : Bytes)
        → ReadsBack asn1
        → FitsContent asn1 crypto sd.encap_content_info.e_content_type content
        → All (IsParsed asn1 x509) chain
        → All (IsAlone chain) chain
        → All (ChecksSignatures crypto x509 signer) chain
        → All (BuildsChains opts chains) chain
        → IsMade sd sd'
        → shown.signer_infos ≡ sd'.signer_infos
        → shown.certificates ≡ sd'.certificates
        → shown.encap_content_info.e_content_type ≡ sd.encap_content_info.e_content_type
        → e_content_value asn1 sd.encap_content_info ≡ ok (some content)
        → Accepted asn1 time crypto x509 nested content opts shown
            (chains ∷ [])
            (some (or_new_pool opts.intermediates ++ chain))
    unfolding x509_certificates
    IsMade-Accepted nested sd sd' shown opts chains content reads fits parsed alone checks built m
          signers certs kind is_content =
        let (is_parsed, with_key) = IsMade-All (IsParsed asn1 x509) sd sd' m parsed in
        let (is_alone, _) = IsMade-All (IsAlone chain) sd sd' m alone in
        let (has_checks, _) = IsMade-All (ChecksSignatures crypto x509 signer) sd sd' m checks in
        let (has_chains, _) = IsMade-All (BuildsChains opts chains) sd sd' m built in
        let is_key = with_key ∙ sym m.is_key in
        let is_cert =
          find_certificate-found asn1 crypto x509 m.key m.cert chain m.si reads is_parsed is_alone
            m.is_found m.is_for.is_version m.is_for.is_sid in
        let only : shown.signer_infos ≡ m.si ∷ [] = signers ∙ m.is_signers in
        let verified =
          IsSigned-Verified asn1 crypto time x509 nested signer sd.encap_content_info shown m.si
            m.cert chain (with_chain chain opts) chains content reads fits has_checks is_cert is_key
            m.is_for m.is_signed is_content kind (has_chains is_key) in
        record {
          certs = chain;
          is_signed = ap (λ l. length l == 0) only;
          is_certs = ap (λ c. parse_all x509.parse_certificate (or_nil c)) certs ∙ m.are_certs;
          are_verified =
              subst
                (λ infos.
                  VerifiedAll asn1 time crypto x509 nested content shown chain
                    (with_chain chain opts) infos (chains ∷ [])
                    (some (or_new_pool opts.intermediates ++ chain)))
                (sym only) (next_verified verified all_verified);
        }

    -- A message with content and neither certificates nor signers, once it is signed, is accepted by
    -- Verify, and without its content by VerifyDetached for that content; both return the chains that
    -- crypto/x509 builds. This is so if encoding/asn1 reads what it wrote, the type of the content
    -- among it, and writes the signed attributes for this content, sorted by their values, in that
    -- order as a SET, the certificates of the chain are parsed from their encodings and differ in
    -- issuer or serial number, and those with the signer's key check its signatures and have these
    -- chains.
    pub sign_message-verify :
        (f : ℕ) (sd sd' : SignedData) (opts : VerifyOptions) (chains : CertChains) (content : Bytes)
        → ReadsBack asn1
        → FitsContent asn1 crypto sd.encap_content_info.e_content_type content
        → All (IsParsed asn1 x509) chain
        → All (IsAlone chain) chain
        → All (ChecksSignatures crypto x509 signer) chain
        → All (BuildsChains opts chains) chain
        → sd.certificates ≡ none
        → sd.signer_infos ≡ []
        → e_content_value asn1 sd.encap_content_info ≡ ok (some content)
        → sign_message asn1 crypto chain signer sd ≡ ok sd'
        → (verify asn1 time crypto x509 f opts sd'
            ≡ ok (chains ∷ [], some (or_new_pool opts.intermediates ++ chain)))
          × (verify_detached asn1 time crypto x509 f content opts (detached sd')
              ≡ ok (chains ∷ [], some (or_new_pool opts.intermediates ++ chain)))
    unfolding sign_message detached is_detached
    sign_message-verify f sd sd' opts chains content reads fits parsed alone checks built
          no_certificates no_signers is_content h =
        let m = add_signer_info-IsMade sd sd' parsed no_certificates no_signers h in
        let kind = ap (λ (e : EncapsulatedContentInfo). e.e_content_type) m.is_content in
        let nested = verify_token asn1 time crypto x509 f in
        let attached =
          IsMade-Accepted nested sd sd' sd' opts chains content reads fits parsed alone checks built
            m refl refl kind is_content in
        let without =
          IsMade-Accepted nested sd sd' (detached sd') opts chains content reads fits parsed alone
            checks built m refl refl kind is_content in
        (
          (verify_iff asn1 time crypto x509 f opts sd' _ _).1
              (content, ap (λ e. e_content_value asn1 e) m.is_content ∙ is_content, attached),
          (verify_detached_iff asn1 time crypto x509 f content opts (detached sd') _ _).1
              (refl, without),
        )
