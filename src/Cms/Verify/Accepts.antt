-- ===== src/Cms/Verify/Accepts.antt =====
-- Verify and VerifyDetached of ietf-cms/verify.go accept what has only good signatures, and nothing else.
use git_kmssign.Base.{
  ℕ, not-eq-false, ◌≡◌, refl, ap, ◌∙◌, subst, ◌↔◌, Bool, true, false, not, List, [], ◌∷◌, Bytes,
  bytes_eq_iff, bytes_eq_refl, length, ◌==◌, if◌then◌else◌, Option, none, some, Result, ok, fail_if,
  or_err, >>=-eq-ok, ok-injective, or_err-eq-ok, fail_if-eq-ok, unsupported, signature_detached,
  signature_not_detached,
}
use git_kmssign.Base.Int.{pos}
use git_kmssign.Cert.{Hash, Certificate}
use git_kmssign.Oids.{
  look_up, digest_algorithm_to_crypto_hash, content_type_tst_info, crypto_hash_to_digest_algorithm,
}
use git_kmssign.Protocol.{Attribute, EncapsulatedContentInfo, SignerInfo, SignedData, Asn1}
use git_kmssign.Protocol.Content.{e_content_value}
use git_kmssign.Protocol.Signed.{is_detached}
use git_kmssign.Protocol.Signing.{Crypto}
use git_kmssign.Timestamp.{MessageImprint, Info, Asn1Time}
use git_kmssign.Timestamp.Imprint.{new_message_imprint, imprint_hash}
use git_kmssign.Timestamp.Service.{parse_info}
use git_kmssign.Timestamp.Correct.{eq_ℤ_iff, Holds, imprint_equal_iff}
use git_kmssign.Cms.Options.{Pool, VerifyOptions, CertChains, X509}
use git_kmssign.Cms.Timestamps.{has_timestamp, get_timestamp}
use git_kmssign.Cms.Timestamps.Correct.{imprint_of, Attests}
use git_kmssign.Cms.Verify.{
  ts_opts, signed_message_of, signed_message, with_timestamp, verify_signer, verify_signers,
  verify_with, verify_attached, verify_token, verify, verify_detached,
}
use git_kmssign.Cms.Verify.Correct.{
  StandsFor, bare, over_attributes, Timed, untimed, timed, Verified, VerifiedAll, all_verified,
  next_verified, Accepted, verify_with-Accepted,
}

module _ (asn1 : Asn1) (time : Asn1Time) (crypto : Crypto) (x509 : X509) where
  StandsFor-signed_message_of :
      (attrs : Option (List Attribute)) (econtent : Bytes) (sd : SignedData) (si : SignerInfo)
      (message : Bytes)
      → StandsFor asn1 time crypto x509 econtent sd.encap_content_info si attrs message
      → signed_message_of asn1 time crypto x509 attrs econtent sd si ≡ ok message
  unfolding signed_message_of
  StandsFor-signed_message_of none econtent sd si message (bare plain) = rw plain refl
  StandsFor-signed_message_of (some attrs) econtent sd si message
        (over_attributes {hash} kind is_hash digest over) =
      rw
        (
          kind,
          bytes_eq_refl sd.encap_content_info.e_content_type,
          is_hash,
          digest,
          bytes_eq_refl (crypto.digest hash econtent),
        )
        over

  Holds-parse_info :
      (eci : EncapsulatedContentInfo) (i : Info)
      → Holds time asn1 eci i
      → parse_info time asn1 eci ≡ ok i
  unfolding parse_info
  Holds-parse_info eci i (kind, content, value, info) =
      let is_type = (bytes_eq_iff eci.e_content_type content_type_tst_info).1 kind in
      rw (is_type, value, info) refl

  imprint_hash-available :
      (mi : MessageImprint) (hash : Hash)
      → imprint_hash crypto mi ≡ ok hash
      → crypto.available hash ≡ true
  unfolding imprint_hash
  imprint_hash-available mi hash h =
      let (found, _, h₁) =
        >>=-eq-ok
          (or_err (look_up digest_algorithm_to_crypto_hash mi.hash_algorithm.algorithm) unsupported)
          _ h in
      let (_, e, h₂) = >>=-eq-ok (fail_if (not (crypto.available found)) unsupported) _ h₁ in
      subst (λ k. crypto.available k ≡ true) (ok-injective h₂)
        (not-eq-false (fail_if-eq-ok _ unsupported e))

  digest_algorithm_some :
      (hash : Hash) → (length (crypto_hash_to_digest_algorithm hash) == 0) ≡ false
  unfolding crypto_hash_to_digest_algorithm
  digest_algorithm_some Hash.md5 = refl
  digest_algorithm_some Hash.sha1 = refl
  digest_algorithm_some Hash.sha256 = refl
  digest_algorithm_some Hash.sha384 = refl
  digest_algorithm_some Hash.sha512 = refl

  available-new_message_imprint :
      (hash : Hash) (message : Bytes)
      → crypto.available hash ≡ true
      → new_message_imprint crypto hash message ≡ ok (imprint_of crypto hash message)
  unfolding new_message_imprint
  available-new_message_imprint hash message h = rw (digest_algorithm_some hash, h) refl

  module _ (nested : VerifyOptions → SignedData → Result Pool) where
    Attests-get_timestamp :
        (si : SignerInfo) (opts : VerifyOptions) (tsti : Info) (pool : Pool)
        → Attests asn1 time crypto nested si opts tsti pool
        → get_timestamp asn1 time crypto nested si opts ≡ ok (tsti, pool)
    unfolding get_timestamp
    Attests-get_timestamp si opts tsti pool a =
        let info = Holds-parse_info a.tst.encap_content_info tsti a.is_info in
        let fresh =
          available-new_message_imprint a.hash si.signature
            (imprint_hash-available tsti.message_imprint a.hash a.is_hash) in
        let same =
          (imprint_equal_iff (imprint_of crypto a.hash si.signature) tsti.message_imprint).1
            a.is_imprint in
        let first = (eq_ℤ_iff tsti.version (pos 1)).1 a.is_version in
        rw (a.is_only, a.is_token, info, first, a.is_verified, a.is_hash, fresh, same) refl

    Timed-choice :
        (cert : Certificate) (si : SignerInfo) (opts used : VerifyOptions)
        → Timed asn1 time crypto x509 nested cert si opts used
        → (has_ts : Bool) × (has_timestamp asn1 time crypto si ≡ ok has_ts)
          × ((if has_ts then with_timestamp asn1 time crypto x509 nested cert si opts else ok opts)
              ≡ ok used)
    unfolding with_timestamp
    Timed-choice cert si opts used (untimed has) = (false, has, refl)
    Timed-choice cert si opts used (timed {tsti} {pool} has token b a) =
        (true, has, rw (Attests-get_timestamp si (ts_opts opts) tsti pool token, b, a) refl)

    Verified-verify_signer :
        (econtent : Bytes) (sd : SignedData) (certs : List Certificate) (opts : VerifyOptions)
        (si : SignerInfo) (chains : CertChains) (pool : Option Pool)
        → Verified asn1 time crypto x509 nested econtent sd certs opts si chains pool
        → verify_signer asn1 time crypto x509 nested econtent sd certs opts si ≡ ok (chains, pool)
    unfolding verify_signer signed_message
    Verified-verify_signer econtent sd certs opts si chains pool v =
        let message =
          StandsFor-signed_message_of si.signed_attrs econtent sd si v.message v.is_message in
        let (has_ts, has, used) = Timed-choice v.cert si opts v.used v.is_timed in
        rw (message, v.is_cert, v.is_known, v.is_signature, has, used, v.is_chain, v.is_pool) refl

    VerifiedAll-verify_signers :
        (econtent : Bytes) (sd : SignedData) (certs : List Certificate) (opts : VerifyOptions)
        (infos : List SignerInfo) (chains : List CertChains) (last : Option Pool)
        → VerifiedAll asn1 time crypto x509 nested econtent sd certs opts infos chains last
        → verify_signers asn1 time crypto x509 nested econtent sd certs opts infos
          ≡ ok (chains, last)
    unfolding verify_signers
    VerifiedAll-verify_signers econtent sd certs opts [] chains last all_verified = refl
    VerifiedAll-verify_signers econtent sd certs opts (si ∷ infos) chains last
          (next_verified {chain} {chains = chains'} {pool} first others) =
        rw
          (
            Verified-verify_signer econtent sd certs opts si chain pool first,
            VerifiedAll-verify_signers econtent sd certs (record opts { intermediates = pool })
                infos chains' last others,
          )
          refl

    Accepted-verify_with :
        (econtent : Bytes) (opts : VerifyOptions) (sd : SignedData) (chains : List CertChains)
        (last : Option Pool)
        → Accepted asn1 time crypto x509 nested econtent opts sd chains last
        → verify_with asn1 time crypto x509 nested econtent opts sd ≡ ok (chains, last)
    unfolding verify_with
    Accepted-verify_with econtent opts sd chains last a =
        rw (a.is_signed, a.is_certs)
          (VerifiedAll-verify_signers econtent sd a.certs _ sd.signer_infos chains last
            a.are_verified)

  -- Verify returns chains exactly if the content is in the message and all of its signatures, one at
  -- least, are good for it; the chains are theirs, in order. Timestamps nest within the fuel.
  pub verify_iff :
      (f : ℕ) (opts : VerifyOptions) (sd : SignedData) (chains : List CertChains)
      (last : Option Pool)
      → (verify asn1 time crypto x509 f opts sd ≡ ok (chains, last)) ↔ (
          (econtent : Bytes) × (e_content_value asn1 sd.encap_content_info ≡ ok (some econtent))
          × Accepted asn1 time crypto x509
              (verify_token asn1 time crypto x509 f)
              econtent
              opts
              sd
              chains
              last)
  unfolding verify verify_attached
  verify_iff f opts sd chains last =
      let nested = verify_token asn1 time crypto x509 f in
      (
        λ h.
            let (value, e₁, h₁) = >>=-eq-ok (e_content_value asn1 sd.encap_content_info) _ h in
            let (econtent, e₂, h₂) = >>=-eq-ok (or_err value signature_detached) _ h₁ in
            (
              econtent,
              e₁ ∙ ap ok (or_err-eq-ok value signature_detached e₂),
              verify_with-Accepted asn1 time crypto x509 nested econtent opts sd chains last h₂,
            ),
        λ (econtent, value, a).
            rw value (Accepted-verify_with nested econtent opts sd chains last a),
      )

  -- VerifyDetached returns chains exactly if the message has no content and all of its signatures, one at
  -- least, are good for the content that is given; the chains are theirs, in order. Timestamps nest within
  -- the fuel.
  pub verify_detached_iff :
      (f : ℕ) (message : Bytes) (opts : VerifyOptions) (sd : SignedData) (chains : List CertChains)
      (last : Option Pool)
      → (verify_detached asn1 time crypto x509 f message opts sd ≡ ok (chains, last)) ↔ (
          (is_detached sd ≡ true)
          × Accepted asn1 time crypto x509
              (verify_token asn1 time crypto x509 f)
              message
              opts
              sd
              chains
              last)
  unfolding verify_detached
  verify_detached_iff f message opts sd chains last =
      let nested = verify_token asn1 time crypto x509 f in
      (
        λ h.
            let (_, e₁, h₁) =
              >>=-eq-ok (fail_if (not (is_detached sd)) signature_not_detached) _ h in
            (
              not-eq-false (fail_if-eq-ok _ signature_not_detached e₁),
              verify_with-Accepted asn1 time crypto x509 nested message opts sd chains last h₁,
            ),
        λ (detached, a). rw detached (Accepted-verify_with nested message opts sd chains last a),
      )
