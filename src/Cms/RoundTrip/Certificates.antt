-- ===== src/Cms/RoundTrip/Certificates.antt =====
-- The certificates that AddSignerInfo of ietf-cms/protocol/protocol.go stores are read again, and the
-- signer's is found.
use git_kmssign.Base.{
  ◌≡◌, refl, sym, ap, ◌∙◌, subst, Bool, true, not, ◌||◌, List, [], ◌∷◌, ◌++◌, append_assoc,
  append-nil, All, Any, Bytes, bytes_eq, bytes_eq_iff, bytes_eq_refl, ◌==◌, ==_iff, Bool-cases,
  &&-split, ◌⊎◌, inl, inr, if◌then◌else◌, Option, some, ok, fail_if, or_err, >>=-eq-ok,
  or_err-eq-ok, ok-injective, asn1_failed, certificate_already_added, public_key_failed,
  parsing_failed, unsupported,
}
use git_kmssign.Base.Int.{pos}
use git_kmssign.Cert.{Certificate}
use git_kmssign.Protocol.{RawValue, IssuerAndSerialNumber, SignerInfo, SignedData, Asn1}
use git_kmssign.Protocol.Signed.{is_added, or_nil, add_certificate, parse_all}
use git_kmssign.Protocol.Signers.{
  is_issued, first_certificate, issuer_and_serial_number_sid, find_certificate_by, find_certificate,
}
use git_kmssign.Protocol.Signing.{Crypto, new_issuer_and_serial_number, add_chain}
use git_kmssign.Cms.Options.{X509}
use git_kmssign.Cms.RoundTrip.{ReadsBack, IsParsed, IsAlone}
use git_kmssign.Timestamp.Correct.{eq_ℤ_iff}

parse_all-append :
    (parse : Bytes → Option Certificate) (raws : List RawValue) (certs : List Certificate)
    (rv : RawValue) (cert : Certificate)
    → parse_all parse raws ≡ ok certs
    → (rv.tag_class == 0) ≡ true
    → (rv.tag == 16) ≡ true
    → parse rv.full_bytes ≡ some cert
    → parse_all parse (raws ++ (rv ∷ [])) ≡ ok (certs ++ (cert ∷ []))
unfolding parse_all
parse_all-append parse [] certs rv cert h c t p =
    let none_there : [] ≡ certs = ok-injective h in
    rw (c, t, p) (ap (λ l. ok (l ++ (cert ∷ []))) none_there)
parse_all-append parse (raw ∷ raws) certs rv cert h c t p =
    let (_, e₁, h₁) =
      >>=-eq-ok (fail_if (not (raw.tag_class == 0) || not (raw.tag == 16)) unsupported) _ h in
    let (first, e₂, h₂) = >>=-eq-ok (or_err (parse raw.full_bytes) parsing_failed) _ h₁ in
    let (rest, e₃, h₃) = >>=-eq-ok (parse_all parse raws) _ h₂ in
    let again = parse_all-append parse raws rest rv cert e₃ c t p in
    rw (e₁, e₂, again) (ap (λ l. ok (l ++ (cert ∷ []))) (ok-injective h₃))

some-injective : {A : Type 0} {a b : A} → some a ≡ some b → a ≡ b
some-injective e = cc

module _ (asn1 : Asn1) (crypto : Crypto) (x509 : X509) where
  add_certificate-parse_all :
      (cert : Certificate) (sd sd' : SignedData) (certs : List Certificate)
      → IsParsed asn1 x509 cert
      → add_certificate asn1 cert sd ≡ ok sd'
      → parse_all x509.parse_certificate (or_nil sd.certificates) ≡ ok certs
      → parse_all x509.parse_certificate (or_nil sd'.certificates) ≡ ok (certs ++ (cert ∷ []))
  unfolding add_certificate
  add_certificate-parse_all cert sd sd' certs parsed h before =
      let (_, _, h₁) =
        >>=-eq-ok (fail_if (is_added (or_nil sd.certificates) cert.raw) certificate_already_added) _
          h in
      let ((rv, rest), e₂, h₂) =
        >>=-eq-ok (or_err (asn1.unmarshal_raw cert.raw) asn1_failed) _ h₁ in
      let (c, t, p) = parsed.parse_lem rv rest (or_err-eq-ok _ asn1_failed e₂) in
      subst
        (λ (sd' : SignedData).
          parse_all x509.parse_certificate (or_nil sd'.certificates) ≡ ok (certs ++ (cert ∷ [])))
        (ok-injective h₂)
        (parse_all-append x509.parse_certificate (or_nil sd.certificates) certs rv cert before
          ((==_iff _ _).1 c) ((==_iff _ _).1 t) p)

  -- The certificates of the chain are read behind those that were there.
  pub add_chain-parse_all :
      (key : Bytes) (chain : List Certificate) (sd sd' : SignedData)
      (before found : Option Certificate) (certs : List Certificate)
      → All (IsParsed asn1 x509) chain
      → add_chain asn1 crypto key chain sd before ≡ ok (sd', found)
      → parse_all x509.parse_certificate (or_nil sd.certificates) ≡ ok certs
      → parse_all x509.parse_certificate (or_nil sd'.certificates) ≡ ok (certs ++ chain)
  unfolding add_chain
  add_chain-parse_all key [] sd sd' before found certs parsed h there =
      let same : sd ≡ sd' = cc in
      rw (append-nil certs) (
        subst
          (λ (x : SignedData). parse_all x509.parse_certificate (or_nil x.certificates) ≡ ok certs)
          same there)
  add_chain-parse_all key (c ∷ chain) sd sd' before found certs (parsed, others) h there =
      let (mid, e₁, h₁) = >>=-eq-ok (add_certificate asn1 c sd) _ h in
      let (cert_key, e₂, h₂) =
        >>=-eq-ok (or_err (crypto.certificate_key c) public_key_failed) _ h₁ in
      let read = add_certificate-parse_all c sd mid certs parsed e₁ there in
      let all_read =
        add_chain-parse_all key chain mid sd' _ found (certs ++ (c ∷ [])) others h₂ read in
      all_read ∙ ap ok (append_assoc certs (c ∷ []) chain)

  -- The certificate that was found.
  abbrev pub IsFound : Bytes → Certificate → Certificate → Type 0
  IsFound key cert c = (c ≡ cert) × (crypto.certificate_key c ≡ some key)

  pub add_chain-IsFound :
      (key : Bytes) (chain : List Certificate) (sd sd' : SignedData) (before : Option Certificate)
      (cert : Certificate)
      → add_chain asn1 crypto key chain sd before ≡ ok (sd', some cert)
      → (before ≡ some cert) ⊎ Any (IsFound key cert) chain
  unfolding add_chain
  add_chain-IsFound key [] sd sd' before cert h = inl (cc)
  add_chain-IsFound key (c ∷ chain) sd sd' before cert h =
      let (mid, e₁, h₁) = >>=-eq-ok (add_certificate asn1 c sd) _ h in
      let (cert_key, e₂, h₂) =
        >>=-eq-ok (or_err (crypto.certificate_key c) public_key_failed) _ h₁ in
      let k = or_err-eq-ok (crypto.certificate_key c) public_key_failed e₂ in
      elim (add_chain-IsFound key chain mid sd' (if bytes_eq key cert_key then some c else before)
        cert h₂) [
          | inr there ↦ inr (inr there)
          | inl e ↦ elim (Bool-cases (bytes_eq key cert_key)) [
            | inl same ↦
                let key' = (bytes_eq_iff key cert_key).0 same in
                let this : c ≡ cert = some-injective (rw same at e) in
                inr (inl (this, k ∙ ap (λ x. some x) (sym key')))
            | inr other ↦ inl (rw other at e)
          ]
        ]

  -- What holds of the members of the chain holds of the certificate that was found.
  pub IsFound-All :
      (P : Certificate → Type 0) (key : Bytes) (cert : Certificate) (chain : List Certificate)
      → Any (IsFound key cert) chain
      → All P chain
      → P cert × (crypto.certificate_key cert ≡ some key)
  IsFound-All P key cert [] found all = elim found [ ]
  IsFound-All P key cert (c ∷ chain) (inl (same, k)) (p, all) =
      (subst P same p, subst (λ x. crypto.certificate_key x ≡ some key) same k)
  IsFound-All P key cert (c ∷ chain) (inr found) (p, all) = IsFound-All P key cert chain found all

  first_certificate-found :
      (p : Certificate → Bool) (key : Bytes) (cert : Certificate) (chain : List Certificate)
      → Any (IsFound key cert) chain
      → p cert ≡ true
      → All (λ c. p c ≡ true → c ≡ cert) chain
      → first_certificate p chain ≡ some cert
  unfolding first_certificate
  first_certificate-found p key cert [] found holds alone = elim found [ ]
  first_certificate-found p key cert (c ∷ chain) found holds (only, alone) =
      elim (Bool-cases (p c)) [
        | inl yes_here ↦ rw yes_here (ap (λ x. some x) (only yes_here))
        | inr not_here ↦ rw not_here (elim found [
          | inl (same, _) ↦ let e = ap p same ∙ holds in cc
          | inr there ↦ first_certificate-found p key cert chain there holds alone
        ])
      ]

  All-map :
      {P Q : Certificate → Type 0} (certs : List Certificate)
      → ((c : Certificate) → P c → Q c)
      → All P certs
      → All Q certs
  All-map [] f all = tt
  All-map (c ∷ certs) f (p, all) = (f c p, All-map certs f all)

  sid-read :
      (si : SignerInfo) (rv : RawValue) (isn : IssuerAndSerialNumber)
      → rv ≡ si.sid
      → rv.tag_class ≡ 0
      → rv.tag ≡ 16
      → asn1.unmarshal_issuer_and_serial rv.full_bytes ≡ some (isn, [])
      → issuer_and_serial_number_sid asn1 si ≡ ok isn
  unfolding issuer_and_serial_number_sid
  sid-read si rv isn same c t u =
      let c' : (si.sid.tag_class == 0) ≡ true =
        (==_iff _ _).1 (ap (λ (x : RawValue). x.tag_class) (sym same) ∙ c) in
      let t' : (si.sid.tag == 16) ≡ true =
        (==_iff _ _).1 (ap (λ (x : RawValue). x.tag) (sym same) ∙ t) in
      let u' : asn1.unmarshal_issuer_and_serial si.sid.full_bytes ≡ some (isn, []) =
        subst (λ (x : RawValue). asn1.unmarshal_issuer_and_serial x.full_bytes ≡ some (isn, []))
          same u in
      rw (c', t', u') refl

  find_certificate_by-issued :
      (si : SignerInfo) (chain : List Certificate) (isn : IssuerAndSerialNumber)
      (cert : Certificate)
      → issuer_and_serial_number_sid asn1 si ≡ ok isn
      → first_certificate (is_issued isn) chain ≡ some cert
      → find_certificate_by asn1 (pos 1) si chain ≡ ok cert
  unfolding find_certificate_by
  find_certificate_by-issued si chain isn cert read first = rw (read, first) refl

  -- A signer whose identifier was made from a certificate of the chain is found to be its.
  pub find_certificate-found :
      (key : Bytes) (cert : Certificate) (chain : List Certificate) (si : SignerInfo)
      → ReadsBack asn1
      → IsParsed asn1 x509 cert
      → IsAlone chain cert
      → Any (IsFound key cert) chain
      → si.version ≡ pos 1
      → new_issuer_and_serial_number asn1 cert ≡ ok si.sid
      → find_certificate asn1 si chain ≡ ok cert
  unfolding find_certificate new_issuer_and_serial_number is_issued
  find_certificate-found key cert chain si reads parsed alone found v h =
      let ((issuer, rest), e₁, h₁) =
        >>=-eq-ok (or_err (asn1.unmarshal_raw cert.raw_issuer) asn1_failed) _ h in
      let isn : IssuerAndSerialNumber = record {
        issuer = issuer;
        serial_number = cert.serial_number;
      } in
      let (der, e₂, h₂) =
        >>=-eq-ok (or_err (asn1.marshal_issuer_and_serial isn) asn1_failed) _ h₁ in
      let ((rv, rest'), e₃, h₃) = >>=-eq-ok (or_err (asn1.unmarshal_raw der) asn1_failed) _ h₂ in
      let (isn', c, t, u, same_issuer, same_serial) =
        reads.issuer_lem cert.raw_issuer rest isn der rv rest' (or_err-eq-ok _ asn1_failed e₁)
          (or_err-eq-ok _ asn1_failed e₂) (or_err-eq-ok _ asn1_failed e₃) in
      let read = sid-read si rv isn' (ok-injective h₃) c t u in
      let whole_issuer = parsed.raw_issuer_lem issuer rest (or_err-eq-ok _ asn1_failed e₁) in
      let issued : is_issued isn' cert ≡ true =
        rw (same_issuer, whole_issuer, bytes_eq_refl cert.raw_issuer)
          ((eq_ℤ_iff isn'.serial_number cert.serial_number).1 same_serial) in
      let only =
        All-map chain
          (λ c f same.
            let (i, s) = &&-split _ _ same in
            f ((bytes_eq_iff _ _).0 i ∙ same_issuer ∙ whole_issuer)
              (sym ((eq_ℤ_iff _ _).0 s) ∙ same_serial))
          alone in
      subst (λ version. find_certificate_by asn1 version si chain ≡ ok cert) (sym v)
        (find_certificate_by-issued si chain isn' cert read
          (first_certificate-found (is_issued isn') key cert chain found issued only))
