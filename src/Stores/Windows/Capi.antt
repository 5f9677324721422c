-- ===== src/Stores/Windows/Capi.antt =====
-- What Sign of certstore/certstore_windows.go returns.
use git_kmssign.Base.{
  ℕ, zero, suc, ◌/◌, ◌≡◌, refl, sym, ap, ◌∙◌, Bool, true, false, not, not-eq-false, Bool-cases, inl,
  inr, ◌==◌, ==_iff, length, [], ◌∷◌, Option, none, some, Bytes,
}
use mathlib.Core.List.{reverse}
use git_kmssign.Cert.{Hash}
use git_kmssign.Stores.Run.{
  StoreError, bad_digest, bad_hash_size, unsupported_hash, Reply, done, Run, next,
  fail_if-next-eq-done,
}
use git_kmssign.Stores.System.{System}
use git_kmssign.Stores.Windows.{
  Api, WinPrivateKey, nte_bad_algid, no_error, last_error, or_last_error, true_or_last_error,
  deferring,
}
use git_kmssign.Stores.Windows.Key.{
  is_known_hash, swap_below, first_address, first_of_length, create_failure, or_create_failure,
  capi_sign_with, capi_sign_hash,
}
use git_kmssign.Stores.Windows.Reverse.{swap_below-reverse}

pub done-injective :
    {A St : Type 0} {a b : A} {st st' : St}
    → ◌≡◌ {A = Reply A × St} (done a, st) (done b, st')
    → a ≡ b
done-injective h = cc

module _ {St B : Type 0} {b : B} {st' : St} where
  pub first_address-next-eq-done :
      (l : Bytes) (f : Unit {0} → Run St B) (st : St)
      → next (first_address l st) f ≡ (done b, st')
      → f tt st ≡ (done b, st')
  first_address-next-eq-done [] f st h = cc
  first_address-next-eq-done (x ∷ l) f st h = h

  pub first_of_length-next-eq-done :
      (n : ℕ) (f : Unit {0} → Run St B) (st : St)
      → next (first_of_length n st) f ≡ (done b, st')
      → f tt st ≡ (done b, st')
  first_of_length-next-eq-done zero f st h = cc
  first_of_length-next-eq-done (suc n) f st h = h

  pub no_error-next-eq-done :
      (e : Option StoreError) (f : Unit {0} → Run St B) (st : St)
      → next (no_error e st) f ≡ (done b, st')
      → (e ≡ none) × (f tt st ≡ (done b, st'))
  no_error-next-eq-done none f st h = (refl, h)
  no_error-next-eq-done (some e) f st h = cc

module _ {S : Type 0} (os : Api S) (size : Hash → ℕ) where
  -- CryptoAPI signed: a hash object of the hash, of its size, was given the digest, and what
  -- CryptSignHash wrote, which is little endian, is returned in reverse. The calls run one behind the
  -- other.
  pub record CapiSigns (wpk : WinPrivateKey) (hash : Hash) (digest : Bytes) (s : S)
      (signature : Bytes) : Type 0 where
    pub chash : ℕ
    pub sig_len : ℕ
    pub raw : Bytes
    pub with_hash : S
    pub with_size : S
    pub with_digest : S
    pub with_length : S
    pub signed : S
    pub is_size : length digest ≡ size hash
    pub is_known : is_known_hash hash ≡ true
    pub is_hash : os.create_hash wpk.capi_prov hash s ≡ (some chash, with_hash)
    pub is_hash_size : os.hash_size chash with_hash ≡ (some (size hash), with_size)
    pub is_digest : os.set_hash chash digest with_size ≡ (true, with_digest)
    pub is_length : os.sign_hash_length chash wpk.key_spec with_digest ≡ (some sig_len, with_length)
    pub is_signed : os.sign_hash chash wpk.key_spec sig_len with_length ≡ (some raw, signed)
    pub is_reverse : reverse raw ≡ signature

module _ {S I : Type 0} (os : Api S) where
  module _ {B : Type 0} {b : B} {st' : System S I} where
    or_last_error-next-eq-done :
        {A : Type 0} (o : Option A) (f : A → Run (System S I) B) (st : System S I)
        → next (or_last_error os o st) f ≡ (done b, st')
        → (a : A) × (o ≡ some a) × (f a st ≡ (done b, st'))
    unfolding last_error
    or_last_error-next-eq-done none f st h = cc
    or_last_error-next-eq-done (some a) f st h = (a, refl, h)

    true_or_last_error-next-eq-done :
        (c : Bool) (f : Unit {0} → Run (System S I) B) (st : System S I)
        → next (true_or_last_error os c st) f ≡ (done b, st')
        → (c ≡ true) × (f tt st ≡ (done b, st'))
    unfolding last_error
    true_or_last_error-next-eq-done true f st h = (refl, h)
    true_or_last_error-next-eq-done false f st h = cc

    deferring-eq-done :
        (g : S → Unit {0} × S) (m : Run (System S I) B) (st : System S I)
        → deferring os g m st ≡ (done b, st')
        → (m st).0 ≡ done b
    deferring-eq-done g m st h = ap (λ x. x.0) h

  module _ (size : Hash → ℕ) where
    or_create_failure-next-eq-done :
        {B : Type 0} {b : B} {st' : System S I} (o : Option ℕ) (f : ℕ → Run (System S I) B)
        (st : System S I)
        → next (or_create_failure os size o st) f ≡ (done b, st')
        → (a : ℕ) × (o ≡ some a) × (f a st ≡ (done b, st'))
    unfolding create_failure last_error
    or_create_failure-next-eq-done none f st h =
        elim (Bool-cases (os.last_error st.os == nte_bad_algid)) [
          | inl e ↦ let h' = rw e at h in cc
          | inr e ↦ let h' = rw e at h in cc
        ]
    or_create_failure-next-eq-done (some a) f st h = (a, refl, h)

    capi_sign_with-CapiSigns :
        (wpk : WinPrivateKey) (hash : Hash) (digest : Bytes) (chash : ℕ) (s : S)
        (st st' : System S I) (signature : Bytes)
        → length digest ≡ size hash
        → is_known_hash hash ≡ true
        → os.create_hash wpk.capi_prov hash s ≡ (some chash, st.os)
        → capi_sign_with os size wpk hash digest chash st ≡ (done signature, st')
        → CapiSigns os size wpk hash digest s signature
    unfolding capi_sign_with
    capi_sign_with-CapiSigns wpk hash digest chash s st st' signature same known created h =
        let (got_size, s₂) = os.hash_size chash st.os in
        let st₂ : System S I = record st { os = s₂ } in
        let (hash_size, e₂, h₂) = or_last_error-next-eq-done got_size _ st₂ h in
        let (bad, h₃) =
          fail_if-next-eq-done (not (size hash == hash_size)) bad_hash_size _ st₂ h₂ in
        let fits : hash_size ≡ size hash = sym ((==_iff _ _).0 (not-eq-false bad)) in
        let h₄ = first_address-next-eq-done digest _ st₂ h₃ in
        let (is_set, s₃) = os.set_hash chash digest s₂ in
        let st₃ : System S I = record st { os = s₃ } in
        let (e₃, h₅) = true_or_last_error-next-eq-done is_set _ st₃ h₄ in
        let (got_length, s₄) = os.sign_hash_length chash wpk.key_spec s₃ in
        let st₄ : System S I = record st { os = s₄ } in
        let (sig_len, e₄, h₆) = or_last_error-next-eq-done got_length _ st₄ h₅ in
        let h₇ = first_of_length-next-eq-done sig_len _ st₄ h₆ in
        let (got_sig, s₅) = os.sign_hash chash wpk.key_spec sig_len s₄ in
        let st₅ : System S I = record st { os = s₅ } in
        let (raw, e₅, h₈) = or_last_error-next-eq-done got_sig _ st₅ h₇ in
        let last : swap_below (length raw / 2) raw ≡ signature = done-injective h₈ in
        record {
          chash = chash;
          sig_len = sig_len;
          raw = raw;
          with_hash = st.os;
          with_size = s₂;
          with_digest = s₃;
          with_length = s₄;
          signed = s₅;
          is_size = same;
          is_known = known;
          is_hash = created;
          is_hash_size = ap (λ o. (o, s₂)) (e₂ ∙ ap (λ n. some n) fits);
          is_digest = ap (λ c. (c, s₃)) e₃;
          is_length = ap (λ o. (o, s₄)) e₄;
          is_signed = ap (λ o. (o, s₅)) e₅;
          is_reverse = sym (swap_below-reverse raw) ∙ last;
        }

    pub capi_sign_hash-CapiSigns :
        (wpk : WinPrivateKey) (hash : Hash) (digest : Bytes) (st st' : System S I)
        (signature : Bytes)
        → capi_sign_hash os size wpk hash digest st ≡ (done signature, st')
        → CapiSigns os size wpk hash digest st.os signature
    unfolding capi_sign_hash capi_sign_with
    capi_sign_hash-CapiSigns wpk hash digest st st' signature h =
        let (bad, h₁) = fail_if-next-eq-done (not (length digest == size hash)) bad_digest _ st h in
        let (unknown, h₂) =
          fail_if-next-eq-done (not (is_known_hash hash)) unsupported_hash _ st h₁ in
        let (created, s₁) = os.create_hash wpk.capi_prov hash st.os in
        let st₁ = record st { os = s₁ } in
        let (chash, e₁, h₃) = or_create_failure-next-eq-done created _ st₁ h₂ in
        let inner = capi_sign_with os size wpk hash digest chash st₁ in
        let signed : inner ≡ (done signature, inner.1) =
          ap (λ a. (a, inner.1))
            (deferring-eq-done (os.destroy_hash chash)
              (capi_sign_with os size wpk hash digest chash) st₁ h₃) in
        capi_sign_with-CapiSigns wpk hash digest chash st.os st₁ inner.1 signature
          ((==_iff _ _).0 (not-eq-false bad)) (not-eq-false unknown) (ap (λ o. (o, s₁)) e₁) signed
