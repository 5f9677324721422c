-- ===== src/Stores/Mac/Made.antt =====
-- What the key, the certificate and the algorithm of Sign in certstore/certstore_darwin.go are.
use git_kmssign.Base.{◌≡◌, sym, ap, ◌∙◌, subst, not, not-eq-false, Option, none, some, Bytes, refl}
use git_kmssign.Base.Int.{ℤ}
use git_kmssign.Cert.{Certificate, Hash, PublicKeyAlgorithm}
use git_kmssign.Protocol.Signers.{eq_ℤ}
use git_kmssign.Timestamp.Correct.{eq_ℤ_iff}
use git_kmssign.Stores.Run.{
  StoreError, os_status, no_certificate_data, certificate_parsing, Reply, done, failed, Run, next,
  or_fail, next-eq-done, fail_if-next-eq-done, or_fail-next-eq-done,
}
use git_kmssign.Stores.System.{Ref, System, let_go-eq-done}
use git_kmssign.Stores.Mac.{
  KeyAlgorithm, ecdsa_x962_sha1, ecdsa_x962_sha256, ecdsa_x962_sha384, ecdsa_x962_sha512,
  rsa_pkcs1v15_sha1, rsa_pkcs1v15_sha256, rsa_pkcs1v15_sha384, rsa_pkcs1v15_sha512, Security,
  MacIdentity,
}
use git_kmssign.Stores.Mac.Identity.{
  algorithm_for, os_status_error, given_or, copy_key_ref, get_key_ref, copy_cert_ref, get_cert_ref,
  export_cert_ref, certificate,
}

-- The type of key that an algorithm is for, and the hash that it signs.
abbrev pub key_type : KeyAlgorithm → PublicKeyAlgorithm
key_type ecdsa_x962_sha1 = PublicKeyAlgorithm.ecdsa
key_type ecdsa_x962_sha256 = PublicKeyAlgorithm.ecdsa
key_type ecdsa_x962_sha384 = PublicKeyAlgorithm.ecdsa
key_type ecdsa_x962_sha512 = PublicKeyAlgorithm.ecdsa
key_type rsa_pkcs1v15_sha1 = PublicKeyAlgorithm.rsa
key_type rsa_pkcs1v15_sha256 = PublicKeyAlgorithm.rsa
key_type rsa_pkcs1v15_sha384 = PublicKeyAlgorithm.rsa
key_type rsa_pkcs1v15_sha512 = PublicKeyAlgorithm.rsa

abbrev pub signed_hash : KeyAlgorithm → Hash
signed_hash ecdsa_x962_sha1 = Hash.sha1
signed_hash ecdsa_x962_sha256 = Hash.sha256
signed_hash ecdsa_x962_sha384 = Hash.sha384
signed_hash ecdsa_x962_sha512 = Hash.sha512
signed_hash rsa_pkcs1v15_sha1 = Hash.sha1
signed_hash rsa_pkcs1v15_sha256 = Hash.sha256
signed_hash rsa_pkcs1v15_sha384 = Hash.sha384
signed_hash rsa_pkcs1v15_sha512 = Hash.sha512

parsed-eq-done :
    {St A : Type 0} (o : Option A) (e : StoreError) (st : St) {a : A} {st' : St}
    → or_fail o e st ≡ (done a, st')
    → o ≡ some a
parsed-eq-done none e st h = cc
parsed-eq-done (some x) e st h = cc

data Fits (kind : PublicKeyAlgorithm) (hash : Hash) : Reply KeyAlgorithm → Type 0 where
  fits :
      (algo : KeyAlgorithm)
      → key_type algo ≡ kind
      → signed_hash algo ≡ hash
      → Fits kind hash (done algo)
  unfit : (e : StoreError) → Fits kind hash (failed e)

algorithm_for-Fits :
    (kind : PublicKeyAlgorithm) (hash : Hash) → Fits kind hash (algorithm_for kind hash)
unfolding algorithm_for
algorithm_for-Fits PublicKeyAlgorithm.ecdsa Hash.sha1 = fits _ refl refl
algorithm_for-Fits PublicKeyAlgorithm.ecdsa Hash.sha256 = fits _ refl refl
algorithm_for-Fits PublicKeyAlgorithm.ecdsa Hash.sha384 = fits _ refl refl
algorithm_for-Fits PublicKeyAlgorithm.ecdsa Hash.sha512 = fits _ refl refl
algorithm_for-Fits PublicKeyAlgorithm.ecdsa Hash.md5 = unfit _
algorithm_for-Fits PublicKeyAlgorithm.rsa Hash.sha1 = fits _ refl refl
algorithm_for-Fits PublicKeyAlgorithm.rsa Hash.sha256 = fits _ refl refl
algorithm_for-Fits PublicKeyAlgorithm.rsa Hash.sha384 = fits _ refl refl
algorithm_for-Fits PublicKeyAlgorithm.rsa Hash.sha512 = fits _ refl refl
algorithm_for-Fits PublicKeyAlgorithm.rsa Hash.md5 = unfit _
algorithm_for-Fits PublicKeyAlgorithm.dsa hash = unfit _
algorithm_for-Fits (PublicKeyAlgorithm.other_key n) hash = unfit _

Fits-done :
    (kind : PublicKeyAlgorithm) (hash : Hash) (algo : KeyAlgorithm)
    → Fits kind hash (done algo)
    → (key_type algo ≡ kind) × (signed_hash algo ≡ hash)
Fits-done kind hash algo (fits _ k h) = (k, h)

pub algorithm_for-eq-done :
    (kind : PublicKeyAlgorithm) (hash : Hash) (algo : KeyAlgorithm)
    → algorithm_for kind hash ≡ done algo
    → (key_type algo ≡ kind) × (signed_hash algo ≡ hash)
algorithm_for-eq-done kind hash algo e =
    Fits-done kind hash algo (subst (Fits kind hash) e (algorithm_for-Fits kind hash))

module _ {S : Type 0} (os : Security S) where
  -- A reference that an identity keeps in a field, or else has the system copy for its own reference.
  pub data IsKept (copy : Option Ref → S → (ℤ × Ref) × S) (ref field : Option Ref) (x : Ref)
      : Type 0 where
    kept : field ≡ some x → IsKept copy ref field x
    copied :
        {s s' : S}
        → field ≡ none
        → copy ref s ≡ ((os.err_sec_success, x), s')
        → IsKept copy ref field x

  copied_with :
      (copy : Option Ref → S → (ℤ × Ref) × S) (ref : Option Ref) (s s' : S) (status : ℤ) (x y : Ref)
      → copy ref s ≡ ((status, x), s')
      → status ≡ os.err_sec_success
      → x ≡ y
      → IsKept copy ref none y
  copied_with copy ref s s' status x y e success same =
      subst (IsKept copy ref none) same
        (copied refl (subst (λ c. copy ref s ≡ ((c, x), s')) success e))

  succeeded :
      {B : Type 0} (status : ℤ) (f : Unit {0} → Run (System S MacIdentity) B)
      (st : System S MacIdentity) {b : B} {st' : System S MacIdentity}
      → next (os_status_error os status st) f ≡ (done b, st')
      → (status ≡ os.err_sec_success) × (f tt st ≡ (done b, st'))
  unfolding os_status_error
  succeeded status f st h =
      let (bad, rest) =
        fail_if-next-eq-done (not (eq_ℤ status os.err_sec_success)) (os_status status) f st h in
      ((eq_ℤ_iff status os.err_sec_success).0 (not-eq-false bad), rest)

  -- The key of an identity, which keeps its other references.
  given_key-IsKept :
      (o : Option Ref) (st st' : System S MacIdentity) (kref : Ref)
      → st.this.kref ≡ o
      → given_or os o (copy_key_ref os) st ≡ (done kref, st')
      → IsKept os.copy_private_key st.this.ref o kref
        × (st'.this.ref ≡ st.this.ref)
        × (st'.this.cref ≡ st.this.cref)
  unfolding copy_key_ref
  given_key-IsKept (some k) st st' kref e h = (
    kept (cc),
    ap (λ (x : Reply Ref × System S MacIdentity). x.1.this.ref) (sym h),
    ap (λ (x : Reply Ref × System S MacIdentity). x.1.this.cref) (sym h),
  )
  given_key-IsKept none st st' kref e h =
      let ((status, x), s) = os.copy_private_key st.this.ref st.os in
      let (is_done, h₁) = succeeded status _ (record st { os = s }) h in
      let same : x ≡ kref = cc in
      (
        copied_with os.copy_private_key st.this.ref st.os s status x kref refl is_done same,
        ap (λ (x : Reply Ref × System S MacIdentity). x.1.this.ref) (sym h₁),
        ap (λ (x : Reply Ref × System S MacIdentity). x.1.this.cref) (sym h₁),
      )

  pub get_key_ref-IsKept :
      (st st' : System S MacIdentity) (kref : Ref)
      → get_key_ref os st ≡ (done kref, st')
      → IsKept os.copy_private_key st.this.ref st.this.kref kref
        × (st'.this.ref ≡ st.this.ref)
        × (st'.this.cref ≡ st.this.cref)
  unfolding get_key_ref
  get_key_ref-IsKept st st' kref h = given_key-IsKept st.this.kref st st' kref refl h

  given_cert-IsKept :
      (o : Option Ref) (st st' : System S MacIdentity) (x : Ref)
      → given_or os o (copy_cert_ref os) st ≡ (done x, st')
      → IsKept os.copy_certificate st.this.ref o x
  unfolding copy_cert_ref
  given_cert-IsKept (some k) st st' x h = kept (cc)
  given_cert-IsKept none st st' x h =
      let ((status, r), s) = os.copy_certificate st.this.ref st.os in
      let (is_done, h₁) = succeeded status _ (record st { os = s }) h in
      let same : r ≡ x = cc in
      copied_with os.copy_certificate st.this.ref st.os s status r x refl is_done same

  -- The certificate that is parsed from the data of the identity's certificate.
  pub record IsCertificate (parse_certificate : Bytes → Option Certificate) (ref cref : Option Ref)
      (crt : Certificate) : Type 0 where
    pub cert_ref : Ref
    pub der_ref : Ref
    pub with_ref : S
    pub with_data : S
    pub is_ref : IsKept os.copy_certificate ref cref cert_ref
    pub is_data : os.copy_certificate_data cert_ref with_ref ≡ (some der_ref, with_data)
    pub is_parsed : parse_certificate (os.data_bytes der_ref with_data) ≡ some crt

  module _ (parse_certificate : Bytes → Option Certificate) where
    pub certificate-IsCertificate :
        (st st' : System S MacIdentity) (crt : Certificate)
        → certificate os parse_certificate st ≡ (done crt, st')
        → IsCertificate parse_certificate st.this.ref st.this.cref crt
    unfolding certificate get_cert_ref export_cert_ref
    certificate-IsCertificate st st' crt h =
        let (cert_ref, st₁, e₁, h₁) = next-eq-done (get_cert_ref os st) _ h in
        let (found, st₂, e₂, h₂) =
          next-eq-done (export_cert_ref os parse_certificate cert_ref st₁) _ h₁ in
        let (data', s) = os.copy_certificate_data cert_ref st₁.os in
        let (der_ref, e₃, h₃) =
          or_fail-next-eq-done data' no_certificate_data _ (record st₁ { os = s }) e₂ in
        let (st₃, h₄) = let_go-eq-done der_ref _ h₃ in
        let parsed =
          parsed-eq-done (parse_certificate (os.data_bytes der_ref s)) certificate_parsing _ h₄ in
        let same : found ≡ crt = cc in
        record {
          cert_ref = cert_ref;
          der_ref = der_ref;
          with_ref = st₁.os;
          with_data = s;
          is_ref = given_cert-IsKept st.this.cref st st₁ cert_ref e₁;
          is_data = ap (λ o. (o, s)) e₃;
          is_parsed = parsed ∙ ap (λ c. some c) same;
        }
