-- ===== src/Stores/Mac/Identity.antt =====
-- certstore/certstore_darwin.go: macIdentity. A nil slice of certificates is [] where it is returned.
use git_kmssign.Base.{
  ℕ, zero, suc, not, ◌==◌, if◌then◌else◌, length, List, [], ◌∷◌, Option, none, some, Bytes,
}
use git_kmssign.Base.Int.{ℤ}
use git_kmssign.Cert.{Certificate, Hash, PublicKeyAlgorithm}
use git_kmssign.Protocol.Signers.{eq_ℤ}
use git_kmssign.Stores.Run.{
  os_status, cf_error, creating_dictionary, creating_array, creating_data, nil_chain, nil_signature,
  no_certificate_data, certificate_parsing, unsupported_key_type, bad_digest, unsupported_hash,
  Reply, done, failed, crashed, Run, ◌>>=◌, ◌>>◌, give, fail, fail_if, or_fail,
}
use git_kmssign.Stores.System.{
  Ref, System, call, look, holding, acquire, release, get, update, reply,
}
use git_kmssign.Stores.Mac.{
  KeyAlgorithm, ecdsa_x962_sha1, ecdsa_x962_sha256, ecdsa_x962_sha384, ecdsa_x962_sha512,
  rsa_pkcs1v15_sha1, rsa_pkcs1v15_sha256, rsa_pkcs1v15_sha384, rsa_pkcs1v15_sha512, item_list,
  Security, MacIdentity,
}

-- The switches of getAlgo.
unfoldable pub algorithm_for : PublicKeyAlgorithm → Hash → Reply KeyAlgorithm
algorithm_for PublicKeyAlgorithm.ecdsa Hash.sha1 = done ecdsa_x962_sha1
algorithm_for PublicKeyAlgorithm.ecdsa Hash.sha256 = done ecdsa_x962_sha256
algorithm_for PublicKeyAlgorithm.ecdsa Hash.sha384 = done ecdsa_x962_sha384
algorithm_for PublicKeyAlgorithm.ecdsa Hash.sha512 = done ecdsa_x962_sha512
algorithm_for PublicKeyAlgorithm.ecdsa Hash.md5 = failed unsupported_hash
algorithm_for PublicKeyAlgorithm.rsa Hash.sha1 = done rsa_pkcs1v15_sha1
algorithm_for PublicKeyAlgorithm.rsa Hash.sha256 = done rsa_pkcs1v15_sha256
algorithm_for PublicKeyAlgorithm.rsa Hash.sha384 = done rsa_pkcs1v15_sha384
algorithm_for PublicKeyAlgorithm.rsa Hash.sha512 = done rsa_pkcs1v15_sha512
algorithm_for PublicKeyAlgorithm.rsa Hash.md5 = failed unsupported_hash
algorithm_for PublicKeyAlgorithm.dsa hash = failed unsupported_key_type
algorithm_for (PublicKeyAlgorithm.other_key n) hash = failed unsupported_key_type

module _ {S : Type 0} (os : Security S) where
  module _ {I : Type 0} where
    unfoldable pub os_status_error : ℤ → Run (System S I) (Unit {0})
    os_status_error status = fail_if (not (eq_ℤ status os.err_sec_success)) (os_status status)

    unfoldable pub bytes_to_cf_data : Bytes → Run (System S I) Ref
    bytes_to_cf_data bytes = do cdata ← call (os.create_data bytes); or_fail cdata creating_data

  -- The fields are set once.
  unfoldable pub copy_cert_ref : Run (System S MacIdentity) Ref
  copy_cert_ref = do
    i ← get
    (status, r) ← call (os.copy_certificate i.ref)
    os_status_error status
    acquire r
    update (λ (i : MacIdentity). record i { cref = some r })
    give r

  unfoldable pub copy_key_ref : Run (System S MacIdentity) Ref
  copy_key_ref = do
    i ← get
    (status, r) ← call (os.copy_private_key i.ref)
    os_status_error status
    acquire r
    update (λ (i : MacIdentity). record i { kref = some r })
    give r

  abbrev pub given_or :
      {A : Type 0} → Option A → Run (System S MacIdentity) A → Run (System S MacIdentity) A
  given_or (some a) m = give a
  given_or none m = m

  unfoldable pub get_cert_ref : Run (System S MacIdentity) Ref
  get_cert_ref = do i ← get; given_or i.cref copy_cert_ref

  unfoldable pub get_key_ref : Run (System S MacIdentity) Ref
  get_key_ref = do i ← get; given_or i.kref copy_key_ref

  unfoldable pub delete : Run (System S MacIdentity) (Unit {0})
  delete = do
    i ← get
    array ← call (os.create_array i.ref)
    list ← or_fail array creating_array
    holding list (do
      dictionary ← call (os.create_dictionary (item_list list))
      query ← or_fail dictionary creating_dictionary
      holding query (do status ← call (os.delete_matching query); os_status_error status))

  abbrev pub release_field : Option Ref → Run (System S MacIdentity) (Unit {0})
  release_field none = give tt
  release_field (some r) = release r

  unfoldable pub close : Run (System S MacIdentity) (Unit {0})
  close = do
    i ← get
    release_field i.ref
    release_field i.kref
    release_field i.cref
    update (λ (i : MacIdentity). record i { ref = none; kref = none; cref = none })

  module _ (parse_certificate : Bytes → Option Certificate) where
    unfoldable pub export_cert_ref : Ref → Run (System S MacIdentity) Certificate
    export_cert_ref cert_ref = do
      copied ← call (os.copy_certificate_data cert_ref)
      der_ref ← or_fail copied no_certificate_data
      holding der_ref (do
        der ← look (os.data_bytes der_ref)
        or_fail (parse_certificate der) certificate_parsing)

    unfoldable pub certificate : Run (System S MacIdentity) Certificate
    certificate = do
      cert_ref ← get_cert_ref
      crt ← export_cert_ref cert_ref
      update (λ (i : MacIdentity). record i { crt = some crt })
      give crt

    -- The loop over the chain, with the certificates that are left.
    unfoldable pub copy_certificates : Ref → ℕ → ℕ → Run (System S MacIdentity) (List Certificate)
    copy_certificates trust i zero = give []
    copy_certificates trust i (suc left) = do
      copied ← call (os.copy_chain trust)
      array ← or_fail copied nil_chain
      acquire array
      cert_ref ← look (os.chain_value array i)
      cert ← export_cert_ref cert_ref
      release array
      certs ← copy_certificates trust (suc i) left
      give (cert ∷ certs)

    unfoldable pub copy_trusted : Ref → Run (System S MacIdentity) (List Certificate)
    copy_trusted trust = do
      n ← look (os.certificate_count trust)
      chain ← copy_certificates trust 0 n
      update (λ (i : MacIdentity). record i { chain = some chain })
      give chain

    -- `return nil, cfErrorError(cfError)`
    unfoldable pub no_chain : Option Ref → Run (System S MacIdentity) (List Certificate)
    no_chain none = give []
    no_chain (some e) = do code ← look (os.error_code e); fail (cf_error code)

    -- The policy is not released.
    unfoldable pub build_chain : Run (System S MacIdentity) (List Certificate)
    build_chain = do
      cert_ref ← get_cert_ref
      policy ← call os.create_policy
      acquire policy
      (status, trust) ← call (os.create_trust cert_ref policy)
      os_status_error status
      holding trust (do
        (trusted, e) ← call (os.evaluate_trust trust)
        if trusted then no_chain e else copy_trusted trust)

    unfoldable pub certificate_chain : Run (System S MacIdentity) (List Certificate)
    certificate_chain = do i ← get; given_or i.chain build_chain

    -- The signer is the identity itself.
    unfoldable pub signer : Run (System S MacIdentity) (Unit {0})
    signer = do crt ← certificate; give tt

    abbrev pub key_or_nil :
        Reply Certificate × System S MacIdentity → Reply (Option Bytes) × System S MacIdentity
    key_or_nil (done crt, st) = (done (some crt.public_key), st)
    key_or_nil (failed e, st) = (done none, st)
    key_or_nil (crashed, st) = (crashed, st)

    unfoldable pub public_key : Run (System S MacIdentity) (Option Bytes)
    public_key st = key_or_nil (certificate st)

    unfoldable pub get_algo : Hash → Run (System S MacIdentity) KeyAlgorithm
    get_algo hash = do crt ← certificate; reply (algorithm_for crt.public_key_algorithm hash)

    -- What SecKeyCreateSignature returned, or its error.
    unfoldable pub signature_or_error : Option Ref → Option Ref → Run (System S MacIdentity) Bytes
    signature_or_error csig (some cerr) =
        holding cerr (do code ← look (os.error_code cerr); fail (cf_error code))
    signature_or_error none none = fail nil_signature
    signature_or_error (some csig) none = holding csig (look (os.data_bytes csig))

    -- `size` is Hash.Size of crypto.
    unfoldable pub sign : (Hash → ℕ) → Hash → Bytes → Run (System S MacIdentity) Bytes
    sign size hash digest = do
      fail_if (not (length digest == size hash)) bad_digest
      kref ← get_key_ref
      cdigest ← bytes_to_cf_data digest
      holding cdigest (do
        algo ← get_algo hash
        (csig, cerr) ← call (os.create_signature kref algo cdigest)
        signature_or_error csig cerr)
