-- ===== src/Cms/Verify/Correct.antt =====
-- What ietf-cms/verify.go checked when it returns chains.
use git_kmssign.Base.{
  not-eq-false, ◌≡◌, refl, ap, ◌∙◌, subst, Bool, true, false, not, ◌||◌, List, [], ◌∷◌, ◌++◌, Bytes,
  bytes_eq, bytes_eq_iff, length, ◌==◌, if◌then◌else◌, Option, none, some, Result, ok, fail_if,
  or_err, >>=-eq-ok, ok-injective, or_err-eq-ok, fail_if-eq-ok, unsupported, no_signatures,
  missing_signed_attrs, invalid_content_type_attribute, invalid_message_digest, bad_signature,
  certificate_expired, chain_not_verified,
}
use git_kmssign.Cert.{Hash, Certificate}
use git_kmssign.Protocol.{Attribute, EncapsulatedContentInfo, SignerInfo, SignedData, Asn1}
use git_kmssign.Protocol.Messages.{marshaled_for_verification}
use git_kmssign.Protocol.Signed.{is_type_data, x509_certificates}
use git_kmssign.Protocol.Signers.{
  eq_ℤ, signer_hash, get_content_type_attribute, get_message_digest_attribute, find_certificate,
  x509_signature_algorithm,
}
use git_kmssign.Protocol.Signing.{Crypto}
use git_kmssign.Timestamp.{Info, Asn1Time}
use git_kmssign.Timestamp.Interval.{before, after}
use git_kmssign.Cms.Options.{Pool, VerifyOptions, zero_time, CertChains, X509}
use git_kmssign.Cms.Timestamps.{has_timestamp, get_timestamp}
use git_kmssign.Cms.Timestamps.Correct.{Attests, get_timestamp-Attests}
use git_kmssign.Cms.Verify.{
  is_unknown, or_new_pool, ts_opts, nanos, signed_message_of, signed_message, with_timestamp,
  verify_signer, verify_signers, verify_with,
}

neither : (a b : Bool) → (not a || not b) ≡ false → (a ≡ true) × (b ≡ true)
neither true true h = (refl, refl)
neither true false h = cc
neither false b h = cc

module _ (asn1 : Asn1) (time : Asn1Time) (crypto : Crypto) (x509 : X509) where
  -- The bytes that a signature is over: the content itself, if the signer signs no attributes and the
  -- content is plain data, or the encoded attributes, which hold the content's type and its digest.
  pub data StandsFor (econtent : Bytes) (eci : EncapsulatedContentInfo) (si : SignerInfo)
      : Option (List Attribute) → Bytes → Type 0 where
    bare : is_type_data eci ≡ true → StandsFor econtent eci si none econtent
    over_attributes :
        {attrs : List Attribute} {hash : Hash} {message : Bytes}
        → get_content_type_attribute asn1 si ≡ ok eci.e_content_type
        → signer_hash crypto.available si ≡ ok hash
        → get_message_digest_attribute asn1 si ≡ ok (crypto.digest hash econtent)
        → marshaled_for_verification asn1 attrs ≡ ok message
        → StandsFor econtent eci si (some attrs) message

  signed_message_of-StandsFor :
      (attrs : Option (List Attribute)) (econtent : Bytes) (sd : SignedData) (si : SignerInfo)
      (message : Bytes)
      → signed_message_of asn1 time crypto x509 attrs econtent sd si ≡ ok message
      → StandsFor econtent sd.encap_content_info si attrs message
  unfolding signed_message_of
  signed_message_of-StandsFor none econtent sd si message h =
      let (_, e₁, h₁) =
        >>=-eq-ok (fail_if (not (is_type_data sd.encap_content_info)) missing_signed_attrs) _ h in
      subst (StandsFor econtent sd.encap_content_info si none) (ok-injective h₁)
        (bare (not-eq-false (fail_if-eq-ok _ missing_signed_attrs e₁)))
  signed_message_of-StandsFor (some attrs) econtent sd si message h =
      let (kind, e₁, h₁) = >>=-eq-ok (get_content_type_attribute asn1 si) _ h in
      let (_, e₂, h₂) =
        >>=-eq-ok
          (fail_if (not (bytes_eq kind sd.encap_content_info.e_content_type))
            invalid_content_type_attribute)
          _ h₁ in
      let (hash, e₃, h₃) = >>=-eq-ok (signer_hash crypto.available si) _ h₂ in
      let (md, e₄, h₄) = >>=-eq-ok (get_message_digest_attribute asn1 si) _ h₃ in
      let (_, e₅, h₅) =
        >>=-eq-ok (fail_if (not (bytes_eq md (crypto.digest hash econtent))) invalid_message_digest)
          _ h₄ in
      let same =
        (bytes_eq_iff kind _).0
          (not-eq-false (fail_if-eq-ok _ invalid_content_type_attribute e₂)) in
      let digest =
        (bytes_eq_iff md _).0 (not-eq-false (fail_if-eq-ok _ invalid_message_digest e₅)) in
      over_attributes (e₁ ∙ ap ok same) e₃ (e₄ ∙ ap ok digest) h₅

  module _ (nested : VerifyOptions → SignedData → Result Pool) where
    -- The options that a signer's certificate is verified with: those of the caller, or, for a signer with
    -- a timestamp, the caller's with the time of the timestamp in place of the zero time. The timestamp
    -- was verified, and the certificate valid in all of its interval.
    pub data Timed (cert : Certificate) (si : SignerInfo) (opts : VerifyOptions)
        : VerifyOptions → Type 0 where
      untimed : has_timestamp asn1 time crypto si ≡ ok false → Timed cert si opts opts
      timed :
          {tsti : Info} {pool : Pool}
          → has_timestamp asn1 time crypto si ≡ ok true
          → Attests asn1 time crypto nested si (ts_opts opts) tsti pool
          → before tsti (nanos cert.not_after) ≡ true
          → after tsti (nanos cert.not_before) ≡ true
          → Timed cert si opts (record opts {
            intermediates = some pool;
            current_time =
                if eq_ℤ opts.current_time zero_time then tsti.gen_time else opts.current_time;
          })

    -- One signature is good: a certificate of the message made it, over bytes that stand for the content,
    -- and crypto/x509 builds the chains of that certificate.
    pub record Verified (econtent : Bytes) (sd : SignedData) (certs : List Certificate)
        (opts : VerifyOptions) (si : SignerInfo) (chains : CertChains) (pool : Option Pool)
        : Type 0 where
      pub message : Bytes
      pub cert : Certificate
      pub used : VerifyOptions
      pub is_message : StandsFor econtent sd.encap_content_info si si.signed_attrs message
      pub is_cert : find_certificate asn1 si certs ≡ ok cert
      pub is_known : is_unknown (x509_signature_algorithm si) ≡ false
      pub is_signature :
          x509.check_signature cert (x509_signature_algorithm si) message si.signature ≡ true
      pub is_timed : Timed cert si opts used
      pub is_chain : x509.verify cert used ≡ some chains
      pub is_pool : used.intermediates ≡ pool

    with_timestamp-Timed :
        (cert : Certificate) (si : SignerInfo) (opts opts' : VerifyOptions)
        → has_timestamp asn1 time crypto si ≡ ok true
        → with_timestamp asn1 time crypto x509 nested cert si opts ≡ ok opts'
        → Timed cert si opts opts'
    unfolding with_timestamp
    with_timestamp-Timed cert si opts opts' has h =
        let ((tsti, pool), e₁, h₁) =
          >>=-eq-ok (get_timestamp asn1 time crypto nested si (ts_opts opts)) _ h in
        let (_, e₂, h₂) =
          >>=-eq-ok
            (fail_if
              (not (before tsti (nanos cert.not_after)) || not (after tsti (nanos cert.not_before)))
              certificate_expired)
            _ h₁ in
        let (b, a) =
          neither (before tsti (nanos cert.not_after)) (after tsti (nanos cert.not_before))
            (fail_if-eq-ok _ certificate_expired e₂) in
        subst (Timed cert si opts) (ok-injective h₂) (
          timed has (get_timestamp-Attests asn1 time crypto nested si (ts_opts opts) tsti pool e₁) b
            a)

    choice-Timed :
        (has_ts : Bool) (cert : Certificate) (si : SignerInfo) (opts opts' : VerifyOptions)
        → has_timestamp asn1 time crypto si ≡ ok has_ts
        → (if has_ts then with_timestamp asn1 time crypto x509 nested cert si opts else ok opts)
          ≡ ok opts'
        → Timed cert si opts opts'
    choice-Timed true cert si opts opts' has h = with_timestamp-Timed cert si opts opts' has h
    choice-Timed false cert si opts opts' has h =
        subst (Timed cert si opts) (ok-injective h) (untimed has)

    pub verify_signer-Verified :
        (econtent : Bytes) (sd : SignedData) (certs : List Certificate) (opts : VerifyOptions)
        (si : SignerInfo) (chains : CertChains) (pool : Option Pool)
        → verify_signer asn1 time crypto x509 nested econtent sd certs opts si ≡ ok (chains, pool)
        → Verified econtent sd certs opts si chains pool
    unfolding verify_signer signed_message
    verify_signer-Verified econtent sd certs opts si chains pool h =
        let algo = x509_signature_algorithm si in
        let (message, e₁, h₁) =
          >>=-eq-ok (signed_message asn1 time crypto x509 econtent sd si) _ h in
        let (cert, e₂, h₂) = >>=-eq-ok (find_certificate asn1 si certs) _ h₁ in
        let (_, e₃, h₃) = >>=-eq-ok (fail_if (is_unknown algo) unsupported) _ h₂ in
        let (_, e₄, h₄) =
          >>=-eq-ok
            (fail_if (not (x509.check_signature cert algo message si.signature)) bad_signature) _
            h₃ in
        let (has_ts, e₅, h₅) = >>=-eq-ok (has_timestamp asn1 time crypto si) _ h₄ in
        let (used, e₆, h₆) =
          >>=-eq-ok
            (if has_ts then with_timestamp asn1 time crypto x509 nested cert si opts else ok opts) _
            h₅ in
        let (chain, e₇, h₇) = >>=-eq-ok (or_err (x509.verify cert used) chain_not_verified) _ h₆ in
        subst (λ x. Verified econtent sd certs opts si x.0 x.1) (ok-injective h₇)
          (record {
            message = message;
            cert = cert;
            used = used;
            is_message = signed_message_of-StandsFor si.signed_attrs econtent sd si message e₁;
            is_cert = e₂;
            is_known = fail_if-eq-ok (is_unknown algo) unsupported e₃;
            is_signature = not-eq-false (fail_if-eq-ok _ bad_signature e₄);
            is_timed = choice-Timed has_ts cert si opts used e₅ e₆;
            is_chain = or_err-eq-ok _ chain_not_verified e₇;
            is_pool = refl;
          })

    -- Every signature is good, in order, each with the pool that the one before it left.
    pub data VerifiedAll (econtent : Bytes) (sd : SignedData) (certs : List Certificate)
        : VerifyOptions → List SignerInfo → List CertChains → Option Pool → Type 0 where
      all_verified :
          {opts : VerifyOptions} → VerifiedAll econtent sd certs opts [] [] opts.intermediates
      next_verified :
          {opts : VerifyOptions} {si : SignerInfo} {infos : List SignerInfo} {chain : CertChains}
          {chains : List CertChains} {pool last : Option Pool}
          → Verified econtent sd certs opts si chain pool
          → VerifiedAll econtent sd certs (record opts { intermediates = pool }) infos chains last
          → VerifiedAll econtent sd certs opts (si ∷ infos) (chain ∷ chains) last

    verify_signers-VerifiedAll :
        (econtent : Bytes) (sd : SignedData) (certs : List Certificate) (opts : VerifyOptions)
        (infos : List SignerInfo) (chains : List CertChains) (last : Option Pool)
        → verify_signers asn1 time crypto x509 nested econtent sd certs opts infos
          ≡ ok (chains, last)
        → VerifiedAll econtent sd certs opts infos chains last
    unfolding verify_signers
    verify_signers-VerifiedAll econtent sd certs opts [] chains last h =
        subst (λ x. VerifiedAll econtent sd certs opts [] x.0 x.1) (ok-injective h) all_verified
    verify_signers-VerifiedAll econtent sd certs opts (si ∷ infos) chains last h =
        let ((chain, pool), e₁, h₁) =
          >>=-eq-ok (verify_signer asn1 time crypto x509 nested econtent sd certs opts si) _ h in
        let opts' : VerifyOptions = record opts { intermediates = pool } in
        let ((chains', last'), e₂, h₂) =
          >>=-eq-ok (verify_signers asn1 time crypto x509 nested econtent sd certs opts' infos) _
            h₁ in
        subst (λ x. VerifiedAll econtent sd certs opts (si ∷ infos) x.0 x.1) (ok-injective h₂)
          (next_verified (verify_signer-Verified econtent sd certs opts si chain pool e₁)
            (verify_signers-VerifiedAll econtent sd certs opts' infos chains' last' e₂))

    -- The message has a signature, and all of them are good for the content, with the certificates of the
    -- message among the intermediates.
    pub record Accepted (econtent : Bytes) (opts : VerifyOptions) (sd : SignedData)
        (chains : List CertChains) (last : Option Pool) : Type 0 where
      pub certs : List Certificate
      pub is_signed : (length sd.signer_infos == 0) ≡ false
      pub is_certs : x509_certificates x509.parse_certificate sd ≡ ok certs
      pub are_verified :
          VerifiedAll econtent sd certs
            (record opts { intermediates = some (or_new_pool opts.intermediates ++ certs) })
            sd.signer_infos
            chains
            last

    pub verify_with-Accepted :
        (econtent : Bytes) (opts : VerifyOptions) (sd : SignedData) (chains : List CertChains)
        (last : Option Pool)
        → verify_with asn1 time crypto x509 nested econtent opts sd ≡ ok (chains, last)
        → Accepted econtent opts sd chains last
    unfolding verify_with
    verify_with-Accepted econtent opts sd chains last h =
        let (_, e₁, h₁) = >>=-eq-ok (fail_if (length sd.signer_infos == 0) no_signatures) _ h in
        let (certs, e₂, h₂) = >>=-eq-ok (x509_certificates x509.parse_certificate sd) _ h₁ in
        record {
          certs = certs;
          is_signed = fail_if-eq-ok _ no_signatures e₁;
          is_certs = e₂;
          are_verified =
              verify_signers-VerifiedAll econtent sd certs _ sd.signer_infos chains last h₂;
        }
