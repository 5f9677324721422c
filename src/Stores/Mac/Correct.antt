-- ===== src/Stores/Mac/Correct.antt =====
-- What Sign and CertificateChain of certstore/certstore_darwin.go return.
use git_kmssign.Base.{
  ℕ, ◌≡◌, refl, sym, ap, subst, ◌∙◌, not, not-eq-false, length, ◌==◌, ==_iff, Option, none, some,
  Bytes,
}
use git_kmssign.Cert.{Certificate, Hash}
use git_kmssign.Stores.Run.{
  bad_digest, creating_data, done, next-eq-done, next_assoc, fail_if-next-eq-done,
  or_fail-next-eq-done, reply-next-eq-done,
}
use git_kmssign.Stores.System.{Ref, acquired, System, note, let_go-eq-done}
use git_kmssign.Stores.Mac.{KeyAlgorithm, Security, MacIdentity}
use git_kmssign.Stores.Mac.Made.{
  key_type, signed_hash, algorithm_for-eq-done, IsKept, get_key_ref-IsKept, IsCertificate,
  certificate-IsCertificate,
}
use git_kmssign.Stores.Mac.Identity.{
  algorithm_for, bytes_to_cf_data, get_key_ref, certificate, get_algo, signature_or_error, sign,
}

module _ {S : Type 0} (os : Security S) (parse_certificate : Bytes → Option Certificate) where
  -- The system made the signature: of the digest, with the key of the identity, by the algorithm for the
  -- type of the key of the identity's certificate and the hash. The calls run one behind the other.
  pub record Signs (size : Hash → ℕ) (hash : Hash) (digest : Bytes) (i : MacIdentity)
      (signature : Bytes) : Type 0 where
    pub with_key : S
    pub with_data : S
    pub with_certificate : S
    pub with_signature : S
    pub crt : Certificate
    pub kref : Ref
    pub cdigest : Ref
    pub csig : Ref
    pub algo : KeyAlgorithm
    pub is_size : length digest ≡ size hash
    pub is_key : IsKept os os.copy_private_key i.ref i.kref kref
    pub is_data : os.create_data digest with_key ≡ (some cdigest, with_data)
    pub is_crt : IsCertificate os parse_certificate i.ref i.cref crt
    pub is_type : key_type algo ≡ crt.public_key_algorithm
    pub is_hash : signed_hash algo ≡ hash
    pub is_signed :
        os.create_signature kref algo cdigest with_certificate ≡ ((some csig, none), with_signature)
    pub is_signature : os.data_bytes csig with_signature ≡ signature

  signature_or_error-eq-done :
      (csig cerr : Option Ref) (st st' : System S MacIdentity) (signature : Bytes)
      → signature_or_error os parse_certificate csig cerr st ≡ (done signature, st')
      → (x : Ref) × (csig ≡ some x) × (cerr ≡ none) × (os.data_bytes x st.os ≡ signature)
  unfolding signature_or_error
  signature_or_error-eq-done none none st st' signature h = cc
  signature_or_error-eq-done (some csig) none st st' signature h = (csig, refl, refl, cc)
  signature_or_error-eq-done csig (some cerr) st st' signature h = cc

  -- Sign that returns a signature checked the length of the digest against the hash, and returns what the
  -- system made for the digest with the identity's key, by the algorithm for the type of the key of its
  -- certificate and the hash.
  pub sign-Signs :
      (size : Hash → ℕ) (hash : Hash) (digest : Bytes) (st st' : System S MacIdentity)
      (signature : Bytes)
      → sign os parse_certificate size hash digest st ≡ (done signature, st')
      → Signs size hash digest st.this signature
  unfolding sign bytes_to_cf_data get_algo
  sign-Signs size hash digest st st' signature h =
      let (bad, h₁) = fail_if-next-eq-done (not (length digest == size hash)) bad_digest _ st h in
      let (kref, with_key, e₂, h₂) = next-eq-done (get_key_ref os st) _ h₁ in
      let (cdata, with_data) = os.create_data digest with_key.os in
      let st₃ = record with_key { os = with_data } in
      let (cdigest, e₃, h₃) = or_fail-next-eq-done cdata creating_data _ st₃ h₂ in
      let (st₄, h₄) = let_go-eq-done cdigest _ h₃ in
      let (crt, st₅, e₅, h₅) =
        next-eq-done (certificate os parse_certificate (note (acquired cdigest) st₃)) _ (
          sym (next_assoc (certificate os parse_certificate (note (acquired cdigest) st₃)) _ _)
          ∙ h₄) in
      let (algo, e₆, h₆) =
        reply-next-eq-done (algorithm_for crt.public_key_algorithm hash) _ st₅ h₅ in
      let ((csig, cerr), s) = os.create_signature kref algo cdigest st₅.os in
      let (x, is_sig, no_error, is_bytes) =
        signature_or_error-eq-done csig cerr (record st₅ { os = s }) st₄ signature h₆ in
      let (is_key, same_ref, same_cref) = get_key_ref-IsKept os st with_key kref e₂ in
      let (is_type, is_hash) = algorithm_for-eq-done crt.public_key_algorithm hash algo e₆ in
      record {
        with_key = with_key.os;
        with_data = with_data;
        with_certificate = st₅.os;
        with_signature = s;
        crt = crt;
        kref = kref;
        cdigest = cdigest;
        csig = x;
        algo = algo;
        is_size = (==_iff _ _).0 (not-eq-false bad);
        is_key = is_key;
        is_data = ap (λ o. (o, with_data)) e₃;
        is_crt =
            subst (λ o. IsCertificate os parse_certificate o st.this.cref crt) same_ref
              (subst (λ o. IsCertificate os parse_certificate with_key.this.ref o crt) same_cref
                (certificate-IsCertificate os parse_certificate (note (acquired cdigest) st₃) st₅
                  crt e₅));
        is_type = is_type;
        is_hash = is_hash;
        is_signed = ap (λ o. ((o, cerr), s)) is_sig ∙ ap (λ o. ((some x, o), s)) no_error;
        is_signature = is_bytes;
      }
