-- ===== src/Protocol/Signing/Correct.antt =====
-- What AddSignerInfo of ietf-cms/protocol/protocol.go adds.
use git_kmssign.Base.{
  ◌≡◌, refl, sym, ap, subst, ◌∙◌, true, List, [], ◌∷◌, ◌++◌, Bytes, bytes_eq, bytes_eq_iff,
  if◌then◌else◌, Bool-cases, inl, inr, ◌⊎◌, Option, none, some, Any, certificate_already_added,
  fail_if, ok, >>=-eq-ok, or_err, asn1_failed, public_key_failed, no_certificate_found,
  already_detached, signing_failed, ok-injective, or_err-eq-ok,
}
use git_kmssign.Cert.{Hash, Certificate}
use git_kmssign.Protocol.{Attribute, EncapsulatedContentInfo, SignerInfo, SignedData, Asn1}
use git_kmssign.Protocol.Content.{e_content_value}
use git_kmssign.Protocol.Signed.{is_added, or_nil, add_certificate, has_digest_algorithm}
use git_kmssign.Protocol.Signed.Correct.{
  Distinct, add_digest_algorithm-Distinct, add_digest_algorithm-keeps,
}
use git_kmssign.Protocol.Signers.{signer_hash}
use git_kmssign.Protocol.Signing.{
  Signer, Crypto, marshaled_for_signing, add_chain, signed_attributes, unsigned_signer_info,
  sign_signer_info, add_signer_info,
}
use git_kmssign.Protocol.Signing.Attributes.{
  AreSigned, IsContents, signed_attributes-AreSigned, marshaled_for_signing-IsContents,
}

-- Nothing but the certificates differs.
abbrev pub SameButCertificates : SignedData → SignedData → Type 0
SameButCertificates sd sd' =
    (sd'.encap_content_info ≡ sd.encap_content_info)
    × (sd'.signer_infos ≡ sd.signer_infos)
    × (sd'.digest_algorithms ≡ sd.digest_algorithms)

module _ (asn1 : Asn1) where
  pub add_certificate-Same :
      (c : Certificate) (sd sd' : SignedData)
      → add_certificate asn1 c sd ≡ ok sd'
      → SameButCertificates sd sd'
  unfolding add_certificate
  add_certificate-Same c sd sd' h =
      let (_, _, rest) =
        >>=-eq-ok (fail_if (is_added (or_nil sd.certificates) c.raw) certificate_already_added) _
          h in
      let (pair, _, last) = >>=-eq-ok (or_err (asn1.unmarshal_raw c.raw) asn1_failed) _ rest in
      subst (SameButCertificates sd) (ok-injective last) (refl, refl, refl)

  module _ (crypto : Crypto) where
    -- The signature of a signer stands over the attributes that are signed: the time, the digest of the
    -- content and its type.
    pub record IsSigned (signer : Signer) (eci : EncapsulatedContentInfo) (si : SignerInfo)
        : Type 0 where
      pub hash : Hash
      pub content : Bytes
      pub marshaled : Bytes
      pub attributes : List Attribute
      pub is_content : e_content_value asn1 eci ≡ ok (some content)
      pub is_hash : signer_hash crypto.available si ≡ ok hash
      pub is_attributes :
          signed_attributes asn1 crypto eci.e_content_type (crypto.digest hash content)
          ≡ ok attributes
      pub has_attributes : si.signed_attrs ≡ some attributes
      pub are_signed :
          AreSigned asn1 crypto eci.e_content_type (crypto.digest hash content) attributes
      pub is_message : IsContents asn1 attributes marshaled
      pub is_marshaled : marshaled_for_signing asn1 attributes ≡ ok marshaled
      pub is_signature : signer.sign (crypto.digest hash marshaled) hash ≡ some si.signature

    pub sign_signer_info-IsSigned :
        (signer : Signer) (sd : SignedData) (si si' : SignerInfo)
        → sign_signer_info asn1 crypto signer sd si ≡ ok si'
        → IsSigned signer sd.encap_content_info si'
    unfolding sign_signer_info signer_hash
    sign_signer_info-IsSigned signer sd si si' h =
        let (value, e₁, h₁) = >>=-eq-ok (e_content_value asn1 sd.encap_content_info) _ h in
        let (content, e₂, h₂) = >>=-eq-ok (or_err value already_detached) _ h₁ in
        let (hash, e₃, h₃) = >>=-eq-ok (signer_hash crypto.available si) _ h₂ in
        let (attrs, e₄, h₄) =
          >>=-eq-ok (signed_attributes asn1 crypto _ (crypto.digest hash content)) _ h₃ in
        let (sm, e₅, h₅) = >>=-eq-ok (marshaled_for_signing asn1 attrs) _ h₄ in
        let (signature, e₆, h₆) =
          >>=-eq-ok (or_err (signer.sign (crypto.digest hash sm) hash) signing_failed) _ h₅ in
        let v = or_err-eq-ok value already_detached e₂ in
        let s = or_err-eq-ok _ signing_failed e₆ in
        let signed = ok-injective h₆ in
        subst (IsSigned signer sd.encap_content_info) signed (record {
          hash = hash;
          content = content;
          marshaled = sm;
          is_content = e₁ ∙ ap ok v;
          is_hash = e₃;
          attributes = attrs;
          is_attributes = e₄;
          has_attributes = refl;
          are_signed = signed_attributes-AreSigned asn1 crypto _ _ attrs e₄;
          is_message = marshaled_for_signing-IsContents asn1 attrs sm e₅;
          is_marshaled = e₅;
          is_signature = s;
        })

    pub add_chain-Same :
        (key : Bytes) (chain : List Certificate) (sd sd' : SignedData)
        (before found : Option Certificate)
        → add_chain asn1 crypto key chain sd before ≡ ok (sd', found)
        → SameButCertificates sd sd'
    unfolding add_chain
    add_chain-Same key [] sd sd' before found h =
        let e : sd ≡ sd' = cc in (rw e refl, rw e refl, rw e refl)
    add_chain-Same key (c ∷ chain) sd sd' before found h =
        let (mid, e₁, h₁) = >>=-eq-ok (add_certificate asn1 c sd) _ h in
        let (cert_key, e₂, h₂) =
          >>=-eq-ok (or_err (crypto.certificate_key c) public_key_failed) _ h₁ in
        let (a, b, d) = add_certificate-Same c sd mid e₁ in
        let (a', b', d') = add_chain-Same key chain mid sd' _ found h₂ in (a' ∙ a, b' ∙ b, d' ∙ d)

    -- The certificate that is found is in the chain, and holds the key.
    abbrev pub HoldsKey : Bytes → Certificate → Type 0
    HoldsKey key cert = crypto.certificate_key cert ≡ some key

    add_chain-found :
        (key : Bytes) (chain : List Certificate) (sd sd' : SignedData) (before : Option Certificate)
        (cert : Certificate)
        → add_chain asn1 crypto key chain sd before ≡ ok (sd', some cert)
        → (before ≡ some cert) ⊎ Any (HoldsKey key) chain
    unfolding add_chain
    add_chain-found key [] sd sd' before cert h = inl (cc)
    add_chain-found key (c ∷ chain) sd sd' before cert h =
        let (mid, e₁, h₁) = >>=-eq-ok (add_certificate asn1 c sd) _ h in
        let (cert_key, e₂, h₂) =
          >>=-eq-ok (or_err (crypto.certificate_key c) public_key_failed) _ h₁ in
        let k = or_err-eq-ok (crypto.certificate_key c) public_key_failed e₂ in
        elim (add_chain-found key chain mid sd' (if bytes_eq key cert_key then some c else before)
          cert h₂) [
            | inr there ↦ inr (inr there)
            | inl e ↦ elim (Bool-cases (bytes_eq key cert_key)) [
              | inl same ↦
                  let key' = (bytes_eq_iff key cert_key).0 same in
                  inr (inl (k ∙ ap (λ x. some x) (sym key')))
              | inr other ↦ inl (rw other at e)
            ]
          ]

    chain-HoldsKey :
        (key : Bytes) (chain : List Certificate) (sd sd' : SignedData) (cert : Certificate)
        {found : Option Certificate}
        → add_chain asn1 crypto key chain sd none ≡ ok (sd', found)
        → found ≡ some cert
        → Any (HoldsKey key) chain
    chain-HoldsKey key chain sd sd' cert h e =
        elim (add_chain-found key chain sd sd' none cert (rw e at h)) [
          | inl none' ↦ cc
          | inr any ↦ any
        ]

    -- AddSignerInfo that returns no error adds one signer, whose signature the signer made over the sorted
    -- attributes with the time, the digest of the content and its type; the chain holds a certificate with the signer's key, the
    -- content and the other signers stay, and the digest algorithms, distinct before, stay distinct and
    -- hold the new signer's.
    pub add_signer_info-IsSigned :
        (chain : List Certificate) (signer : Signer) (sd sd' : SignedData)
        → Distinct sd.digest_algorithms
        → add_signer_info asn1 crypto chain signer sd ≡ ok sd'
        → (si : SignerInfo) × (sd'.signer_infos ≡ sd.signer_infos ++ (si ∷ []))
          × IsSigned signer sd.encap_content_info si
          × (sd'.encap_content_info ≡ sd.encap_content_info)
          × Distinct sd'.digest_algorithms
          × (has_digest_algorithm sd'.digest_algorithms si.digest_algorithm ≡ true)
          × ((key : Bytes) × (signer.public_key ≡ some key) × Any (HoldsKey key) chain)
    unfolding add_signer_info
    add_signer_info-IsSigned chain signer sd sd' d h =
        let (key, e₁, h₁) = >>=-eq-ok (or_err signer.public_key public_key_failed) _ h in
        let ((mid, found), e₂, h₂) = >>=-eq-ok (add_chain asn1 crypto key chain sd none) _ h₁ in
        let (cert, e₃, h₃) = >>=-eq-ok (or_err found no_certificate_found) _ h₂ in
        let (si, e₄, h₄) = >>=-eq-ok (unsigned_signer_info asn1 crypto cert key) _ h₃ in
        let (si', e₅, h₅) = >>=-eq-ok (sign_signer_info asn1 crypto signer mid si) _ h₄ in
        let signed = sign_signer_info-IsSigned signer mid si si' e₅ in
        let (same, infos, algos) = add_chain-Same key chain sd mid none found e₂ in
        let (kept, kept_infos) = add_digest_algorithm-keeps si'.digest_algorithm mid in
        let (distinct, has) =
          add_digest_algorithm-Distinct si'.digest_algorithm mid (subst Distinct (sym algos) d) in
        let goal : SignedData → Type 0 = λ sd'.
          (si : SignerInfo) × (sd'.signer_infos ≡ sd.signer_infos ++ (si ∷ []))
          × IsSigned signer sd.encap_content_info si
          × (sd'.encap_content_info ≡ sd.encap_content_info)
          × Distinct sd'.digest_algorithms
          × (has_digest_algorithm sd'.digest_algorithms si.digest_algorithm ≡ true)
          × ((key : Bytes) × (signer.public_key ≡ some key) × Any (HoldsKey key) chain) in
        subst goal (ok-injective h₅) (
          si',
          ap (λ l. l ++ (si' ∷ [])) (kept_infos ∙ infos),
          subst (λ eci. IsSigned signer eci si') same signed,
          kept ∙ same,
          distinct,
          has,
          (
            key,
            or_err-eq-ok signer.public_key public_key_failed e₁,
            chain-HoldsKey key chain sd mid cert e₂ (or_err-eq-ok found no_certificate_found e₃),
          ),
        )
