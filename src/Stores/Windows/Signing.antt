-- ===== src/Stores/Windows/Signing.antt =====
-- Sign of certstore/certstore_windows.go, by the API that the key belongs to.
use git_kmssign.Base.{
  ℕ, ◌/◌, ◌%◌, ◌≡◌, ◌≢◌, refl, Bool, true, false, not, not-eq-false, if◌then◌else◌, Bool-cases, inl,
  inr, ◌==◌, ==_iff, length, take, drop, Option, none, some, Bytes,
}
use git_kmssign.Base.Int.{ℤ}
use git_kmssign.Cert.{Hash, PublicKeyAlgorithm}
use git_kmssign.Stores.Run.{
  bad_digest, bad_ec_signature, asn1_failed, done, Run, next, fail_if-next-eq-done, or_fail,
}
use git_kmssign.Stores.System.{System}
use git_kmssign.Stores.Windows.{Api, WinPrivateKey, check_status}
use git_kmssign.Stores.Windows.Key.{
  is_rsa, is_ecdsa, is_known_hash, set_bytes, padding, encode_ecdsa, cng_sign_hash, sign,
}
use git_kmssign.Stores.Windows.Capi.{
  done-injective, first_address-next-eq-done, first_of_length-next-eq-done, no_error-next-eq-done,
  CapiSigns, capi_sign_hash-CapiSigns,
}

abbrev pub pad_of : Bool → Hash → Option Hash
pad_of true hash = some hash
pad_of false hash = none

-- The signature of a key that is ECDSA, or is not, made of what CNG wrote.
abbrev pub Encoded : (ℕ → ℕ → Option Bytes) → Bool → Bytes → Bytes → Type 0
Encoded marshal true raw signature =
    (length raw % 2 ≡ 0)
    × (marshal (set_bytes 0 (take (length raw / 2) raw)) (set_bytes 0 (drop (length raw / 2) raw))
        ≡ some signature)
Encoded marshal false raw signature = raw ≡ signature

zero_handle : (n : ℕ) → not (n == 0) ≡ false → n ≡ 0
zero_handle n h = (==_iff n 0).0 (not-eq-false h)

nonzero_handle : (n : ℕ) → not (n == 0) ≡ true → n ≢ 0
nonzero_handle n h e = let h' = rw e at h in cc

module _ {S : Type 0} (os : Api S) (size : Hash → ℕ) (marshal : ℕ → ℕ → Option Bytes) where
  -- CNG signed the digest, padded for an RSA key, of a hash that it knows; the two numbers of an ECDSA
  -- signature are encoded anew.
  pub record CngSigns (wpk : WinPrivateKey) (hash : Hash) (digest : Bytes) (s : S)
      (signature : Bytes) : Type 0 where
    pub sig_len : ℕ
    pub raw : Bytes
    pub status : ℤ
    pub status' : ℤ
    pub with_length : S
    pub signed : S
    pub is_size : length digest ≡ size hash
    pub is_known : is_rsa wpk.algorithm ≡ true → is_known_hash hash ≡ true
    pub is_length :
        os.ncrypt_sign_length wpk.cng_handle (pad_of (is_rsa wpk.algorithm) hash) digest s
        ≡ ((status, sig_len), with_length)
    pub is_status : check_status status ≡ none
    pub is_signed :
        os.ncrypt_sign wpk.cng_handle
          (pad_of (is_rsa wpk.algorithm) hash)
          digest
          sig_len
          with_length
        ≡ ((status', raw), signed)
    pub is_status' : check_status status' ≡ none
    pub is_encoded : Encoded marshal (is_ecdsa wpk.algorithm) raw signature

  -- A key of CryptoAPI signs with it, and a key of CNG with that.
  pub data SignedBy (wpk : WinPrivateKey) (hash : Hash) (digest : Bytes) (s : S) (signature : Bytes)
      : Type 0 where
    by_capi :
        wpk.capi_prov ≢ 0
        → CapiSigns os size wpk hash digest s signature
        → SignedBy wpk hash digest s signature
    by_cng :
        wpk.capi_prov ≡ 0
        → wpk.cng_handle ≢ 0
        → CngSigns wpk hash digest s signature
        → SignedBy wpk hash digest s signature

  module _ {I : Type 0} where
    padding-next-eq-done :
        {B : Type 0} {b : B} {st' : System S I} (algorithm : PublicKeyAlgorithm) (hash : Hash)
        (f : Option Hash → Run (System S I) B) (st : System S I)
        → next (padding os algorithm hash st) f ≡ (done b, st')
        → (is_rsa algorithm ≡ true → is_known_hash hash ≡ true)
          × (f (pad_of (is_rsa algorithm) hash) st ≡ (done b, st'))
    unfolding padding
    padding-next-eq-done algorithm hash f st h = elim (Bool-cases (is_rsa algorithm)) [
      | inl rsa ↦ elim (Bool-cases (is_known_hash hash)) [
        | inl known ↦ rw rsa ((λ _. known), rw (rsa, known) at h)
        | inr unknown ↦ let h' = rw (rsa, unknown) at h in cc
      ]
      | inr other ↦ rw other ((λ e. cc), rw other at h)
    ]

    or_asn1_failed-eq-done :
        (o : Option Bytes) (st st' : System S I) (signature : Bytes)
        → or_fail o asn1_failed st ≡ (done signature, st')
        → o ≡ some signature
    or_asn1_failed-eq-done none st st' signature h = cc
    or_asn1_failed-eq-done (some x) st st' signature h = cc

    Encoded-eq-done :
        (ec : Bool) (raw : Bytes) (st st' : System S I) (signature : Bytes)
        → (if ec then encode_ecdsa os marshal raw else (λ st. (done raw, st))) st
          ≡ (done signature, st')
        → Encoded marshal ec raw signature
    unfolding encode_ecdsa
    Encoded-eq-done true raw st st' signature h =
        let (odd, h₁) = fail_if-next-eq-done (not (length raw % 2 == 0)) bad_ec_signature _ st h in
        ((==_iff _ _).0 (not-eq-false odd), or_asn1_failed-eq-done _ st st' signature h₁)
    Encoded-eq-done false raw st st' signature h = done-injective h

    cng_sign_hash-CngSigns :
        (wpk : WinPrivateKey) (hash : Hash) (digest : Bytes) (st st' : System S I)
        (signature : Bytes)
        → cng_sign_hash os size marshal wpk hash digest st ≡ (done signature, st')
        → CngSigns wpk hash digest st.os signature
    unfolding cng_sign_hash
    cng_sign_hash-CngSigns wpk hash digest st st' signature h =
        let (bad, h₁) = fail_if-next-eq-done (not (length digest == size hash)) bad_digest _ st h in
        let h₂ = first_address-next-eq-done digest _ st h₁ in
        let (known, h₃) = padding-next-eq-done wpk.algorithm hash _ st h₂ in
        let pad = pad_of (is_rsa wpk.algorithm) hash in
        let ((status, len), s₁) = os.ncrypt_sign_length wpk.cng_handle pad digest st.os in
        let st₁ : System S I = record st { os = s₁ } in
        let (e₁, h₄) = no_error-next-eq-done (check_status status) _ st₁ h₃ in
        let h₅ = first_of_length-next-eq-done len _ st₁ h₄ in
        let ((status', raw), s₂) = os.ncrypt_sign wpk.cng_handle pad digest len s₁ in
        let st₂ : System S I = record st { os = s₂ } in
        let (e₂, h₆) = no_error-next-eq-done (check_status status') _ st₂ h₅ in
        record {
          sig_len = len;
          raw = raw;
          status = status;
          status' = status';
          with_length = s₁;
          signed = s₂;
          is_size = (==_iff _ _).0 (not-eq-false bad);
          is_known = known;
          is_length = refl;
          is_status = e₁;
          is_signed = refl;
          is_status' = e₂;
          is_encoded = Encoded-eq-done (is_ecdsa wpk.algorithm) raw st₂ st' signature h₆;
        }

    -- Sign that returns a signature checked the length of the digest against the hash and had the API of
    -- the key sign it: CryptoAPI, whose little-endian signature is returned in reverse, or CNG, with the
    -- padding of PKCS #1 v1.5 for an RSA key, whose raw signature is encoded anew for an ECDSA key.
    pub sign-SignedBy :
        (wpk : WinPrivateKey) (hash : Hash) (digest : Bytes) (st st' : System S I)
        (signature : Bytes)
        → sign os size marshal wpk hash digest st ≡ (done signature, st')
        → SignedBy wpk hash digest st.os signature
    unfolding sign
    sign-SignedBy wpk hash digest st st' signature h =
        elim (Bool-cases (not (wpk.capi_prov == 0))) [
          | inl capi ↦
              by_capi (nonzero_handle wpk.capi_prov capi)
                (capi_sign_hash-CapiSigns os size wpk hash digest st st' signature (rw capi at h))
          | inr not_capi ↦ elim (Bool-cases (not (wpk.cng_handle == 0))) [
            | inl cng ↦
                by_cng (zero_handle wpk.capi_prov not_capi) (nonzero_handle wpk.cng_handle cng) (
                  cng_sign_hash-CngSigns wpk hash digest st st' signature (rw (not_capi, cng) at h))
            | inr neither ↦ let h' = rw (not_capi, neither) at h in cc
          ]
        ]
