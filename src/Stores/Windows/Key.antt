-- ===== src/Stores/Windows/Key.antt =====
-- certstore/certstore_windows.go: winPrivateKey.
use git_kmssign.Base.{
  ℕ, zero, suc, ◌+◌, ◌-◌, ◌/◌, ◌%◌, ◌*◌, Bool, true, false, not, ◌==◌, if◌then◌else◌, length, take,
  drop, [], ◌∷◌, Option, none, some, Bytes,
}
use git_kmssign.Cert.{Hash, PublicKeyAlgorithm}
use git_kmssign.Stores.Run.{
  unsupported_hash, bad_private_key, nil_public_key, must_free_set, bad_ec_signature, bad_hash_size,
  bad_digest, asn1_failed, Run, ◌>>=◌, ◌>>◌, give, fail, crash, fail_if, or_fail,
}
use git_kmssign.Stores.System.{Ref, System, call, look}
use git_kmssign.Stores.Windows.{
  AcquiredKey, ProviderParam, container, name, provider_type, Flags, Api, WinPrivateKey,
  nte_bad_algid, check_status, no_error, last_error, or_last_error, true_or_last_error, deferring,
}

-- A public key of an algorithm that crypto/x509 does not know is nil.
abbrev pub is_nil : PublicKeyAlgorithm → Bool
is_nil (PublicKeyAlgorithm.other_key n) = true
is_nil _ = false

abbrev pub is_rsa : PublicKeyAlgorithm → Bool
is_rsa PublicKeyAlgorithm.rsa = true
is_rsa _ = false

abbrev pub is_ecdsa : PublicKeyAlgorithm → Bool
is_ecdsa PublicKeyAlgorithm.ecdsa = true
is_ecdsa _ = false

-- The switches on the hash: the hashes that the APIs know.
abbrev pub is_known_hash : Hash → Bool
is_known_hash Hash.md5 = false
is_known_hash _ = true

-- new(big.Int).SetBytes, from an accumulator.
unfoldable pub set_bytes : ℕ → Bytes → ℕ
set_bytes acc [] = acc
set_bytes acc (b ∷ bs) = set_bytes (acc * 256 + b) bs

-- An element of a slice, in range.
abbrev pub element : Bytes → ℕ → ℕ
element [] i = 0
element (b ∷ bs) zero = b
element (b ∷ bs) (suc i) = element bs i

abbrev pub set_element : Bytes → ℕ → ℕ → Bytes
set_element [] i v = []
set_element (b ∷ bs) zero v = v ∷ bs
set_element (b ∷ bs) (suc i) v = b ∷ set_element bs i v

abbrev pub swap : Bytes → ℕ → ℕ → Bytes
swap sig i j = set_element (set_element sig i (element sig j)) j (element sig i)

-- The loop that reverses the signature, with the indices below the first argument left.
unfoldable pub swap_below : ℕ → Bytes → Bytes
swap_below zero sig = sig
swap_below (suc i) sig = swap_below i (swap sig i (length sig - 1 - i))

-- `&s[0]`
abbrev pub first_address : {St : Type 0} → Bytes → Run St (Unit {0})
first_address [] = crash
first_address (b ∷ bs) = give tt

-- `&s[0]` of a slice of that length.
abbrev pub first_of_length : {St : Type 0} → ℕ → Run St (Unit {0})
first_of_length zero = crash
first_of_length (suc n) = give tt

module _ {S I : Type 0} (os : Api S) where
  -- A private key that newWinPrivateKey gets; the key of the certificate is given with it.
  unfoldable pub new_win_private_key :
      Flags → Ref → PublicKeyAlgorithm → Bytes → Run (System S I) WinPrivateKey
  new_win_private_key flags ctx algorithm public_key = do
    fail_if (is_nil algorithm) nil_public_key
    acquired ← call (os.acquire_key ctx)
    (key : AcquiredKey) ← or_last_error os acquired
    fail_if (not key.must_free) must_free_set
    give (
        if key.key_spec == flags.ncrypt_key_spec
        then record {
          algorithm = algorithm;
          public_key = public_key;
          capi_prov = 0;
          cng_handle = key.handle;
          key_spec = 0;
        }
        else record {
          algorithm = algorithm;
          public_key = public_key;
          capi_prov = key.handle;
          cng_handle = 0;
          key_spec = key.key_spec;
        })

  -- The padding for an RSA key, and none for others.
  unfoldable pub padding : PublicKeyAlgorithm → Hash → Run (System S I) (Option Hash)
  padding algorithm hash =
      if is_rsa algorithm
      then (if is_known_hash hash then give (some hash) else fail unsupported_hash)
      else give none

  -- The DER encoding of a raw signature by asn1.Marshal.
  unfoldable pub encode_ecdsa : (ℕ → ℕ → Option Bytes) → Bytes → Run (System S I) Bytes
  encode_ecdsa marshal sig = do
    fail_if (not (length sig % 2 == 0)) bad_ec_signature
    let half = length sig / 2
    or_fail (marshal (set_bytes 0 (take half sig)) (set_bytes 0 (drop half sig))) asn1_failed

  module _ (size : Hash → ℕ) where
    unfoldable pub cng_sign_hash :
        (ℕ → ℕ → Option Bytes) → WinPrivateKey → Hash → Bytes → Run (System S I) Bytes
    cng_sign_hash marshal wpk hash digest = do
      fail_if (not (length digest == size hash)) bad_digest
      first_address digest
      pad ← padding wpk.algorithm hash
      (status, sig_len) ← call (os.ncrypt_sign_length wpk.cng_handle pad digest)
      no_error (check_status status)
      first_of_length sig_len
      (status', sig) ← call (os.ncrypt_sign wpk.cng_handle pad digest sig_len)
      no_error (check_status status')
      if is_ecdsa wpk.algorithm then encode_ecdsa marshal sig else give sig

    -- CryptCreateHash failed.
    unfoldable pub create_failure : Run (System S I) ℕ
    create_failure = do
      code ← look os.last_error
      if code == nte_bad_algid then fail unsupported_hash else last_error os

    abbrev pub or_create_failure : Option ℕ → Run (System S I) ℕ
    or_create_failure none = create_failure
    or_create_failure (some chash) = give chash

    unfoldable pub capi_sign_with : WinPrivateKey → Hash → Bytes → ℕ → Run (System S I) Bytes
    capi_sign_with wpk hash digest chash = do
      got_size ← call (os.hash_size chash)
      hash_size ← or_last_error os got_size
      fail_if (not (size hash == hash_size)) bad_hash_size
      first_address digest
      is_set ← call (os.set_hash chash digest)
      true_or_last_error os is_set
      got_length ← call (os.sign_hash_length chash wpk.key_spec)
      sig_len ← or_last_error os got_length
      first_of_length sig_len
      got_sig ← call (os.sign_hash chash wpk.key_spec sig_len)
      sig ← or_last_error os got_sig
      give (swap_below (length sig / 2) sig)

    unfoldable pub capi_sign_hash : WinPrivateKey → Hash → Bytes → Run (System S I) Bytes
    capi_sign_hash wpk hash digest = do
      fail_if (not (length digest == size hash)) bad_digest
      fail_if (not (is_known_hash hash)) unsupported_hash
      created ← call (os.create_hash wpk.capi_prov hash)
      chash ← or_create_failure created
      deferring os (os.destroy_hash chash) (capi_sign_with wpk hash digest chash)

    -- Sign; the hash is that of the options.
    unfoldable pub sign :
        (ℕ → ℕ → Option Bytes) → WinPrivateKey → Hash → Bytes → Run (System S I) Bytes
    sign marshal wpk hash digest =
        if not (wpk.capi_prov == 0)
        then capi_sign_hash wpk hash digest
        else (if not (wpk.cng_handle == 0)
            then cng_sign_hash marshal wpk hash digest
            else fail bad_private_key)

  -- getProviderParam
  unfoldable pub get_provider_param : WinPrivateKey → ProviderParam → Run (System S I) Bytes
  get_provider_param wpk parameter = do
    got_size ← call (os.param_size wpk.capi_prov parameter)
    len ← or_last_error os got_size
    first_of_length len
    got ← call (os.param wpk.capi_prov parameter len)
    or_last_error os got

  unfoldable pub delete_key : WinPrivateKey → Run (System S I) (Unit {0})
  delete_key wpk =
      if not (wpk.cng_handle == 0)
      then (do status ← call (os.ncrypt_delete wpk.cng_handle); no_error (check_status status))
      else (if not (wpk.capi_prov == 0)
          then (do
            container_name ← get_provider_param wpk container
            provider_name ← get_provider_param wpk name
            kind ← get_provider_param wpk provider_type
            deleted ← call (os.delete_key_set container_name provider_name kind)
            true_or_last_error os deleted)
          else fail bad_private_key)

  -- The handles that are not nil are freed, and both are nil behind it.
  unfoldable pub close_key : WinPrivateKey → Run (System S I) WinPrivateKey
  close_key wpk = do
    if not (wpk.cng_handle == 0) then call (os.ncrypt_free wpk.cng_handle) else give tt
    if not (wpk.capi_prov == 0) then call (os.release_context wpk.capi_prov) else give tt
    give (record wpk { cng_handle = 0; capi_prov = 0 })
