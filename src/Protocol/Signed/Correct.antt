-- ===== src/Protocol/Signed/Correct.antt =====
-- The digest algorithms and the certificates of a SignedData (ietf-cms/protocol/protocol.go and
-- ietf-cms/signed_data.go).
use git_kmssign.Base.{
  ◌≡◌, refl, sym, Bool, true, false, ◌||◌, List, [], ◌∷◌, ◌++◌, append-nil, append_assoc, Bytes,
  bytes_eq, bytes_eq_iff, bytes_eq_refl, Bool-cases, ||-right, inl, inr, Option, some, All, ok,
  ◌>>=◌,
}
use git_kmssign.Cert.{Certificate}
use git_kmssign.Protocol.{RawValue, AlgorithmIdentifier, SignedData, Asn1}
use git_kmssign.Protocol.Attributes.{class_universal}
use git_kmssign.Protocol.Signers.{tag_sequence}
use git_kmssign.Protocol.Signed.{
  has_digest_algorithm, add_digest_algorithm, clear_certificates, or_nil, is_added, add_certificate,
  add_certificates, set_certificates, parse_all, x509_certificates,
}

-- No algorithm occurs twice.
abbrev pub Distinct : List AlgorithmIdentifier → Type 0
Distinct [] = Unit
Distinct (a ∷ l) = (has_digest_algorithm l a ≡ false) × Distinct l

bytes_eq-false_sym : (x y : Bytes) → bytes_eq x y ≡ false → bytes_eq y x ≡ false
bytes_eq-false_sym x y h = elim (Bool-cases (bytes_eq y x)) [
  | inl same ↦ let e = (bytes_eq_iff x y).1 (sym ((bytes_eq_iff y x).0 same)) in cc
  | inr other ↦ other
]

||-false : (a b : Bool) → (a || b) ≡ false → (a ≡ false) × (b ≡ false)
||-false true b h = cc
||-false false b h = (refl, h)

has_digest_algorithm-append :
    (l : List AlgorithmIdentifier) (a x : AlgorithmIdentifier)
    → has_digest_algorithm l x ≡ false
    → bytes_eq a.algorithm x.algorithm ≡ false
    → has_digest_algorithm (l ++ (a ∷ [])) x ≡ false
unfolding has_digest_algorithm
has_digest_algorithm-append [] a x h e = rw e refl
has_digest_algorithm-append (y ∷ l) a x h e =
    let (other, rest) = ||-false _ (has_digest_algorithm l x) h in
    rw (other, has_digest_algorithm-append l a x rest e) refl

Distinct-append :
    (l : List AlgorithmIdentifier) (a : AlgorithmIdentifier)
    → Distinct l
    → has_digest_algorithm l a ≡ false
    → Distinct (l ++ (a ∷ []))
unfolding has_digest_algorithm
Distinct-append [] a d h = (refl, tt)
Distinct-append (x ∷ l) a (fresh, d) h =
    let (other, rest) = ||-false _ (has_digest_algorithm l a) h in
    (
      has_digest_algorithm-append l a x fresh (bytes_eq-false_sym x.algorithm a.algorithm other),
      Distinct-append l a d rest,
    )

has_digest_algorithm-last :
    (l : List AlgorithmIdentifier) (a : AlgorithmIdentifier)
    → has_digest_algorithm (l ++ (a ∷ [])) a ≡ true
unfolding has_digest_algorithm
has_digest_algorithm-last [] a = rw (bytes_eq_refl a.algorithm) refl
has_digest_algorithm-last (x ∷ l) a = ||-right _ _ (has_digest_algorithm-last l a)

-- addDigestAlgorithm keeps the algorithms distinct, and the algorithm is among them afterwards.
pub add_digest_algorithm-Distinct :
    (algo : AlgorithmIdentifier) (sd : SignedData)
    → Distinct sd.digest_algorithms
    → Distinct (add_digest_algorithm algo sd).digest_algorithms
      × (has_digest_algorithm (add_digest_algorithm algo sd).digest_algorithms algo ≡ true)
unfolding add_digest_algorithm
add_digest_algorithm-Distinct algo sd d =
    elim (Bool-cases (has_digest_algorithm sd.digest_algorithms algo)) [
      | inl present ↦ rw present (d, present)
      | inr absent ↦ rw absent (
        Distinct-append sd.digest_algorithms algo d absent,
        has_digest_algorithm-last sd.digest_algorithms algo,
      )
    ]

pub add_digest_algorithm-keeps :
    (algo : AlgorithmIdentifier) (sd : SignedData)
    → ((add_digest_algorithm algo sd).encap_content_info ≡ sd.encap_content_info)
      × ((add_digest_algorithm algo sd).signer_infos ≡ sd.signer_infos)
unfolding add_digest_algorithm
add_digest_algorithm-keeps algo sd =
    elim (Bool-cases (has_digest_algorithm sd.digest_algorithms algo)) [
      | inl present ↦ rw present (refl, refl)
      | inr absent ↦ rw absent (refl, refl)
    ]

is_added-split :
    (l r : List RawValue) (raw : Bytes)
    → is_added (l ++ r) raw ≡ false
    → (is_added l raw ≡ false) × (is_added r raw ≡ false)
unfolding is_added
is_added-split [] r raw h = (refl, h)
is_added-split (x ∷ l) r raw h =
    let (here, rest) = ||-false _ (is_added (l ++ r) raw) h in
    let (inside, behind) = is_added-split l r raw rest in (rw (here, inside) refl, behind)

is_added-append :
    (l : List RawValue) (rv : RawValue) (raw : Bytes)
    → is_added l raw ≡ false
    → bytes_eq rv.bytes raw ≡ false
    → is_added (l ++ (rv ∷ [])) raw ≡ false
unfolding is_added
is_added-append [] rv raw h e = rw e refl
is_added-append (x ∷ l) rv raw h e =
    let (here, rest) = ||-false _ (is_added l raw) h in
    rw (here, is_added-append l rv raw rest e) refl

abbrev pub with_certificates : SignedData → List RawValue → SignedData
with_certificates sd raws = record sd { certificates = some raws }

module _ (asn1 : Asn1) where
  -- A certificate whose content, without tag and length, is not the certificate is added twice by two
  -- calls of AddCertificate, if no stored content was equal to it before.
  add_certificate-twice :
      (cert : Certificate) (sd : SignedData) (rv : RawValue) (rest : Bytes)
      → asn1.unmarshal_raw cert.raw ≡ some (rv, rest)
      → bytes_eq rv.bytes cert.raw ≡ false
      → is_added (or_nil sd.certificates) cert.raw ≡ false
      → (add_certificate asn1 cert sd >>= add_certificate asn1 cert)
        ≡ ok (with_certificates sd ((or_nil sd.certificates ++ (rv ∷ [])) ++ (rv ∷ [])))
  unfolding add_certificate
  add_certificate-twice cert sd rv rest e differs fresh =
      rw (fresh, e, is_added-append (or_nil sd.certificates) rv cert.raw fresh differs, e) refl

  module _ (parse_certificate : Bytes → Option Certificate) where
    -- The elements that certificates are stored as: encoding/asn1 reads each certificate as one
    -- SEQUENCE, from whose bytes crypto/x509 reads the certificate.
    pub data Stored : List Certificate → List RawValue → Type 0 where
      none_stored : Stored [] []
      one_more_stored :
          {cert : Certificate} {certs : List Certificate} {rv : RawValue} {raws : List RawValue}
          → asn1.unmarshal_raw cert.raw ≡ some (rv, [])
          → rv.tag_class ≡ class_universal
          → rv.tag ≡ tag_sequence
          → parse_certificate rv.full_bytes ≡ some cert
          → Stored certs raws
          → Stored (cert ∷ certs) (rv ∷ raws)

    add_certificates-Stored :
        (certs : List Certificate) (raws before : List RawValue) (sd : SignedData)
        → Stored certs raws
        → All (λ (c : Certificate). is_added (before ++ raws) c.raw ≡ false) certs
        → add_certificates asn1 certs (with_certificates sd before)
          ≡ ok (with_certificates sd (before ++ raws))
    unfolding add_certificates add_certificate
    add_certificates-Stored [] raws before sd none_stored all = rw append-nil refl
    add_certificates-Stored (cert ∷ certs) _ before sd (one_more_stored {rv = rv} {raws} e c t p s)
          (fresh, all) =
        let (new, _) = is_added-split before (rv ∷ raws) cert.raw fresh in
        let joined : (before ++ (rv ∷ [])) ++ raws ≡ before ++ (rv ∷ raws) =
          append_assoc before (rv ∷ []) raws in
        let step = add_certificates-Stored certs raws (before ++ (rv ∷ [])) sd s (rw joined all) in
        rw (new, e) (rw joined at step)

    parse_all-Stored :
        (certs : List Certificate) (raws : List RawValue)
        → Stored certs raws
        → parse_all parse_certificate raws ≡ ok certs
    unfolding parse_all
    parse_all-Stored [] raws none_stored = refl
    parse_all-Stored (cert ∷ certs) _ (one_more_stored {rv = rv} {raws} e c t p s) =
        rw (c, t, p, parse_all-Stored certs raws s) refl

    -- Certificates that encoding/asn1 and crypto/x509 can read, none of them the content of one that is
    -- stored, replace by SetCertificates those that were there, and X509Certificates returns them in
    -- their order.
    pub set_certificates-x509_certificates :
        (certs : List Certificate) (raws : List RawValue) (sd : SignedData)
        → Stored certs raws
        → All (λ (c : Certificate). is_added raws c.raw ≡ false) certs
        → (set_certificates asn1 certs sd ≡ ok (with_certificates sd raws))
          × (x509_certificates parse_certificate (with_certificates sd raws) ≡ ok certs)
    unfolding set_certificates clear_certificates x509_certificates
    set_certificates-x509_certificates certs raws sd s all =
        (add_certificates-Stored certs raws [] sd s all, parse_all-Stored certs raws s)
