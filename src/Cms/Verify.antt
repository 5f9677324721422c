-- ===== src/Cms/Verify.antt =====
-- ietf-cms/verify.go: Verify and VerifyDetached. The pool of intermediates is one object, which the
-- options of the timestamps share: it is passed from step to step. (What an error leaves in a pool that
-- the caller gave is not modelled.)
pub mod Correct
pub mod Accepts
pub mod Ends
use git_kmssign.Base.{
  ℕ, zero, suc, Bool, true, false, not, ◌||◌, List, [], ◌∷◌, ◌++◌, Bytes, bytes_eq, length, ◌==◌,
  if◌then◌else◌, Option, none, some, Result, ok, err, stuck, ◌>>=◌, ◌>>◌, fail_if, or_err,
  unsupported, signature_detached, signature_not_detached, no_signatures, missing_signed_attrs,
  invalid_content_type_attribute, invalid_message_digest, bad_signature, certificate_expired,
  chain_not_verified,
}
use git_kmssign.Base.Int.{ℤ, scale}
use git_kmssign.Cert.{Certificate, SignatureAlgorithm}
use git_kmssign.Protocol.{Attribute, SignerInfo, SignedData, Asn1}
use git_kmssign.Protocol.Content.{e_content_value}
use git_kmssign.Protocol.Messages.{marshaled_for_verification}
use git_kmssign.Protocol.Signed.{is_type_data, x509_certificates, is_detached}
use git_kmssign.Protocol.Signers.{
  eq_ℤ, signer_hash, get_content_type_attribute, get_message_digest_attribute, find_certificate,
  x509_signature_algorithm,
}
use git_kmssign.Protocol.Signing.{Crypto}
use git_kmssign.Timestamp.{Asn1Time}
use git_kmssign.Timestamp.Interval.{second, before, after}
use git_kmssign.Cms.Options.{
  Pool, VerifyOptions, ExtKeyUsage, time_stamping, zero_time, CertChains, X509,
}
use git_kmssign.Cms.Timestamps.{has_timestamp, get_timestamp}

abbrev pub is_unknown : SignatureAlgorithm → Bool
is_unknown SignatureAlgorithm.unknown_signature_algorithm = true
is_unknown _ = false

-- The pool that a nil pool is replaced by.
abbrev pub or_new_pool : Option Pool → Pool
or_new_pool none = []
or_new_pool (some pool) = pool

-- The options of the timestamps.
abbrev pub ts_opts : VerifyOptions → VerifyOptions
ts_opts opts = record opts { key_usages = time_stamping ∷ [] }

-- The certificate's time in nanoseconds.
abbrev pub nanos : ℤ → ℤ
nanos t = scale second t

module _ (asn1 : Asn1) (time : Asn1Time) (crypto : Crypto) (x509 : X509) where
  -- The bytes that a signature stands over, with the signed attributes of the signer.
  unfoldable pub signed_message_of :
      Option (List Attribute) → Bytes → SignedData → SignerInfo → Result Bytes
  signed_message_of none econtent sd si = do
    fail_if (not (is_type_data sd.encap_content_info)) missing_signed_attrs
    ok econtent
  signed_message_of (some attrs) econtent sd si = do
    si_content_type ← get_content_type_attribute asn1 si
    fail_if (not (bytes_eq si_content_type sd.encap_content_info.e_content_type))
        invalid_content_type_attribute
    hash ← signer_hash crypto.available si
    message_digest ← get_message_digest_attribute asn1 si
    fail_if (not (bytes_eq message_digest (crypto.digest hash econtent))) invalid_message_digest
    marshaled_for_verification asn1 attrs

  unfoldable pub signed_message : Bytes → SignedData → SignerInfo → Result Bytes
  signed_message econtent sd si = signed_message_of si.signed_attrs econtent sd si

  module _ (nested : VerifyOptions → SignedData → Result Pool) where
    -- The copy of the options for a signer that has a timestamp.
    unfoldable pub with_timestamp : Certificate → SignerInfo → VerifyOptions → Result VerifyOptions
    with_timestamp cert si opts = do
      (tsti, pool) ← get_timestamp asn1 time crypto nested si (ts_opts opts)
      fail_if (not (before tsti (nanos cert.not_after)) || not (after tsti (nanos cert.not_before)))
          certificate_expired
      ok (record opts {
        intermediates = some pool;
        current_time =
            if eq_ℤ opts.current_time zero_time then tsti.gen_time else opts.current_time;
      })

    -- One turn of the loop over the signers: the chains, and the pool afterwards.
    unfoldable pub verify_signer :
        Bytes
        → SignedData
        → List Certificate
        → VerifyOptions
        → SignerInfo
        → Result (CertChains × Option Pool)
    verify_signer econtent sd certs opts si = do
      message ← signed_message econtent sd si
      cert ← find_certificate asn1 si certs
      let algo = x509_signature_algorithm si
      fail_if (is_unknown algo) unsupported
      fail_if (not (x509.check_signature cert algo message si.signature)) bad_signature
      has_ts ← has_timestamp asn1 time crypto si
      opts_copy ← if has_ts then with_timestamp cert si opts else ok opts
      chain ← or_err (x509.verify cert opts_copy) chain_not_verified
      ok (chain, opts_copy.intermediates)

    unfoldable pub verify_signers :
        Bytes
        → SignedData
        → List Certificate
        → VerifyOptions
        → List SignerInfo
        → Result (List CertChains × Option Pool)
    verify_signers econtent sd certs opts [] = ok ([], opts.intermediates)
    verify_signers econtent sd certs opts (si ∷ infos) = do
      (chain, pool) ← verify_signer econtent sd certs opts si
      (chains, last) ← verify_signers econtent sd certs (record opts { intermediates = pool }) infos
      ok (chain ∷ chains, last)

    unfoldable pub verify_with :
        Bytes → VerifyOptions → SignedData → Result (List CertChains × Option Pool)
    verify_with econtent opts sd = do
      fail_if (length sd.signer_infos == 0) no_signatures
      certs ← x509_certificates x509.parse_certificate sd
      let opts' : VerifyOptions = record opts {
        intermediates = some (or_new_pool opts.intermediates ++ certs);
      }
      verify_signers econtent sd certs opts' sd.signer_infos

    unfoldable pub verify_attached :
        VerifyOptions → SignedData → Result (List CertChains × Option Pool)
    verify_attached opts sd = do
      value ← e_content_value asn1 sd.encap_content_info
      econtent ← or_err value signature_detached
      verify_with econtent opts sd

  -- Verify on a timestamp's token, which may have timestamps of its own: the fuel bounds how deep they
  -- nest.
  unfoldable pub verify_token : ℕ → VerifyOptions → SignedData → Result Pool
  verify_token zero opts tst = stuck
  verify_token (suc f) opts tst = do
    (chains, pool) ← verify_attached (verify_token f) opts tst
    ok (or_new_pool pool)

  unfoldable pub verify : ℕ → VerifyOptions → SignedData → Result (List CertChains × Option Pool)
  verify f opts sd = verify_attached (verify_token f) opts sd

  unfoldable pub verify_detached :
      ℕ → Bytes → VerifyOptions → SignedData → Result (List CertChains × Option Pool)
  verify_detached f message opts sd = do
    fail_if (not (is_detached sd)) signature_not_detached
    verify_with (verify_token f) message opts sd
