-- ===== src/Cms/Verify/Ends.antt =====
-- The verification of ietf-cms/verify.go ends, however deep timestamps nest.
use git_kmssign.Base.{
  ℕ, zero, suc, ◌≡◌, ◌≢◌, List, [], ◌∷◌, Bytes, Option, none, some, Result, ok, stuck,
}
use git_kmssign.Base.Ends.{
  Ends, ok_ends, ends_rules, Ends-bind, Ends-bind_value, Ends-ne-stuck, Ends-or_err, Ends-fail_if,
}
use git_kmssign.Cert.{Hash, Certificate}
use git_kmssign.Oids.{attribute_time_stamp_token}
use git_kmssign.Protocol.{RawValue, Attribute, SignerInfo, SignedData, Asn1}
use git_kmssign.Protocol.Attributes.{get_only_attribute_value_bytes}
use git_kmssign.Protocol.Messages.{parse_signed_data}
use git_kmssign.Protocol.Ends.{
  ReadsBytes, Ends-whole, get_values-Ends, get_only_attribute_value_bytes-Ends,
  e_content_value-Ends, parse_signed_data-Ends, marshaled_for_verification-Ends,
  find_certificate-Ends, signer_hash-Ends, x509_certificates-Ends, get_content_type_attribute-Ends,
  get_message_digest_attribute-Ends,
}
use git_kmssign.Protocol.Signing.{Crypto}
use git_kmssign.Timestamp.{MessageImprint, Asn1Time}
use git_kmssign.Timestamp.Imprint.{new_message_imprint, imprint_hash}
use git_kmssign.Timestamp.Service.{parse_info}
use git_kmssign.Cms.Options.{Pool, VerifyOptions, X509}
use git_kmssign.Cms.Timestamps.{has_timestamp, get_timestamp}
use git_kmssign.Cms.Verify.{
  ts_opts, signed_message_of, signed_message, with_timestamp, verify_signer, verify_signers,
  verify_with, verify_attached, verify_token, verify, verify_detached,
}

module _ (asn1 : Asn1) where
  -- The token of a signer's one timestamp.
  pub record TokenOf (si : SignerInfo) (tst : SignedData) : Type 0 where
    pub raw_value : RawValue
    pub is_value :
        get_only_attribute_value_bytes asn1 si.unsigned_attrs attribute_time_stamp_token
        ≡ ok raw_value
    pub is_token : parse_signed_data asn1 raw_value.full_bytes ≡ ok tst

  -- A property of the tokens of all signers.
  unfoldable pub Tokens : (SignedData → Type 0) → List SignerInfo → Type 0
  Tokens P [] = Unit {0}
  Tokens P (si ∷ infos) = ((tst : SignedData) → TokenOf si tst → P tst) × Tokens P infos

  -- Timestamps nest at most n deep.
  unfoldable pub NestsTo : ℕ → SignedData → Type 0
  NestsTo zero sd = Tokens (λ tst. ⊥) sd.signer_infos
  NestsTo (suc n) sd = Tokens (NestsTo n) sd.signer_infos

module _ (asn1 : Asn1) (time : Asn1Time) (crypto : Crypto) (x509 : X509)
    (reads : ReadsBytes asn1) where
  parse_info-Ends : (sd : SignedData) → Ends (parse_info time asn1 sd.encap_content_info)
  unfolding parse_info
  parse_info-Ends sd = search (ends_rules, e_content_value-Ends asn1 reads, Ends-whole) depth 9

  imprint_hash-Ends : (mi : MessageImprint) → Ends (imprint_hash crypto mi)
  unfolding imprint_hash
  imprint_hash-Ends mi = search ends_rules

  new_message_imprint-Ends :
      (hash : Hash) (message : Bytes) → Ends (new_message_imprint crypto hash message)
  unfolding new_message_imprint
  new_message_imprint-Ends hash message = search ends_rules

  signed_message_of-Ends :
      (attrs : Option (List Attribute)) (econtent : Bytes) (sd : SignedData) (si : SignerInfo)
      → Ends (signed_message_of asn1 time crypto x509 attrs econtent sd si)
  unfolding signed_message_of
  signed_message_of-Ends none econtent sd si = search ends_rules
  signed_message_of-Ends (some attrs) econtent sd si =
      search
        (
          ends_rules,
          get_content_type_attribute-Ends asn1 reads,
          signer_hash-Ends,
          get_message_digest_attribute-Ends asn1 reads,
          marshaled_for_verification-Ends,
        )
        depth 12

  signed_message-Ends :
      (econtent : Bytes) (sd : SignedData) (si : SignerInfo)
      → Ends (signed_message asn1 time crypto x509 econtent sd si)
  unfolding signed_message
  signed_message-Ends econtent sd si = signed_message_of-Ends si.signed_attrs econtent sd si

  has_timestamp-Ends : (si : SignerInfo) → Ends (has_timestamp asn1 time crypto si)
  unfolding has_timestamp
  has_timestamp-Ends si = search (ends_rules, get_values-Ends asn1 reads)

  module _ (nested : VerifyOptions → SignedData → Result Pool) where
    -- Verifying ends on what holds P.
    abbrev EndsOn : (SignedData → Type 0) → Type 0
    EndsOn P = (opts : VerifyOptions) (tst : SignedData) → P tst → Ends (nested opts tst)

    get_timestamp-Ends :
        (P : SignedData → Type 0)
        → EndsOn P
        → (si : SignerInfo) (opts : VerifyOptions)
        → ((tst : SignedData) → TokenOf asn1 si tst → P tst)
        → Ends (get_timestamp asn1 time crypto nested si opts)
    unfolding get_timestamp
    get_timestamp-Ends P ends si opts token =
        Ends-bind_value
          (get_only_attribute_value_bytes asn1 si.unsigned_attrs attribute_time_stamp_token)
          (get_only_attribute_value_bytes-Ends asn1 reads _ _)
          λ raw e.
            Ends-bind_value (parse_signed_data asn1 raw.full_bytes) (parse_signed_data-Ends asn1 _)
              λ tst e'.
                let verified =
                  ends opts tst
                    (token tst (record { raw_value = raw; is_value = e; is_token = e' })) in
                search (ends_rules, parse_info-Ends, imprint_hash-Ends, new_message_imprint-Ends)
                  depth 14

    verify_signer-Ends :
        (P : SignedData → Type 0)
        → EndsOn P
        → (econtent : Bytes) (sd : SignedData) (certs : List Certificate) (opts : VerifyOptions)
          (si : SignerInfo)
        → ((tst : SignedData) → TokenOf asn1 si tst → P tst)
        → Ends (verify_signer asn1 time crypto x509 nested econtent sd certs opts si)
    unfolding verify_signer with_timestamp
    verify_signer-Ends P ends econtent sd certs opts si token =
        let fetched = get_timestamp-Ends P ends si (ts_opts opts) token in
        search (ends_rules, signed_message-Ends, find_certificate-Ends asn1, has_timestamp-Ends)
          depth 18

    verify_signers-Ends :
        (P : SignedData → Type 0)
        → EndsOn P
        → (econtent : Bytes) (sd : SignedData) (certs : List Certificate) (opts : VerifyOptions)
          (infos : List SignerInfo)
        → Tokens asn1 P infos
        → Ends (verify_signers asn1 time crypto x509 nested econtent sd certs opts infos)
    unfolding verify_signers Tokens
    verify_signers-Ends P ends econtent sd certs opts [] tokens = ok_ends
    verify_signers-Ends P ends econtent sd certs opts (si ∷ infos) (token, tokens) =
        Ends-bind (verify_signer-Ends P ends econtent sd certs opts si token) λ (chain, pool).
          Ends-bind
            (verify_signers-Ends P ends econtent sd certs (record opts { intermediates = pool })
              infos tokens)
            λ (chains, last). ok_ends

    verify_with-Ends :
        (P : SignedData → Type 0)
        → EndsOn P
        → (econtent : Bytes) (opts : VerifyOptions) (sd : SignedData)
        → Tokens asn1 P sd.signer_infos
        → Ends (verify_with asn1 time crypto x509 nested econtent opts sd)
    unfolding verify_with
    verify_with-Ends P ends econtent opts sd tokens = Ends-bind (Ends-fail_if _ _) λ _.
        Ends-bind (x509_certificates-Ends x509.parse_certificate sd)
          λ certs. verify_signers-Ends P ends econtent sd certs _ sd.signer_infos tokens

    verify_attached-Ends :
        (P : SignedData → Type 0)
        → EndsOn P
        → (opts : VerifyOptions) (sd : SignedData) → Tokens asn1 P sd.signer_infos
        → Ends (verify_attached asn1 time crypto x509 nested opts sd)
    unfolding verify_attached
    verify_attached-Ends P ends opts sd tokens =
        Ends-bind (e_content_value-Ends asn1 reads sd.encap_content_info) λ value.
          Ends-bind (Ends-or_err value _)
            λ econtent. verify_with-Ends P ends econtent opts sd tokens

  verify_token-Ends :
      (n : ℕ) (opts : VerifyOptions) (tst : SignedData)
      → NestsTo asn1 n tst
      → Ends (verify_token asn1 time crypto x509 (suc n) opts tst)
  unfolding verify_token NestsTo
  verify_token-Ends zero opts tst nests =
      Ends-bind
        (verify_attached-Ends (verify_token asn1 time crypto x509 0) (λ tst. ⊥)
          (λ opts tst none_there. elim none_there [ ]) opts tst nests)
        λ _. ok_ends
  verify_token-Ends (suc n) opts tst nests =
      Ends-bind
        (verify_attached-Ends (verify_token asn1 time crypto x509 (suc n)) (NestsTo asn1 n)
          (verify_token-Ends n) opts tst nests)
        λ _. ok_ends

  -- Verify ends on every message whose timestamps nest at most n deep, if it has fuel for n; so does
  -- VerifyDetached, for every content. ReadsBytes is what the loops need of encoding/asn1.
  pub verify-ends :
      (n : ℕ) (message : Bytes) (opts : VerifyOptions) (sd : SignedData)
      → NestsTo asn1 n sd
      → (verify asn1 time crypto x509 n opts sd ≢ stuck)
        × (verify_detached asn1 time crypto x509 n message opts sd ≢ stuck)
  unfolding verify verify_detached NestsTo
  verify-ends zero message opts sd nests = (
    Ends-ne-stuck (
        verify_attached-Ends _ (λ tst. ⊥) (λ opts tst none_there. elim none_there [ ]) opts sd
          nests),
    Ends-ne-stuck (
        Ends-bind (Ends-fail_if _ _) λ _.
          verify_with-Ends _ (λ tst. ⊥) (λ opts tst none_there. elim none_there [ ]) message opts sd
            nests),
  )
  verify-ends (suc n) message opts sd nests = (
    Ends-ne-stuck (verify_attached-Ends _ (NestsTo asn1 n) (verify_token-Ends n) opts sd nests),
    Ends-ne-stuck (
        Ends-bind (Ends-fail_if _ _)
          λ _. verify_with-Ends _ (NestsTo asn1 n) (verify_token-Ends n) message opts sd nests),
  )
