-- ===== src/Protocol/Signed/Left.antt =====
-- The message that SetCertificates of ietf-cms/signed_data.go leaves, with an error or without.
use git_kmssign.Base.{
  ℕ, suc, ◌<◌, ◌≡◌, refl, sym, ◌∙◌, ap, Bool-cases, List, [], ◌∷◌, ◌++◌, take, length, append-nil,
  append_assoc, Bytes, arith, fail_if, Option, none, some, Error, Result, inl, inr, ◌⊎◌, ok, err,
  panic, stuck, or_err, ◌>>=◌, >>=-eq-ok, or_err-eq-ok, ok-injective, asn1_failed,
  certificate_already_added,
}
use git_kmssign.Cert.{Certificate}
use git_kmssign.Protocol.{RawValue, SignedData, Asn1}
use git_kmssign.Protocol.Signed.{
  is_added, or_nil, add_certificate, add_certificates, set_certificates, clear_certificates,
}
use git_kmssign.Protocol.Signed.Correct.{with_certificates}
use git_kmssign.Protocol.Signing.Correct.{SameButCertificates, add_certificate-Same}

module _ (asn1 : Asn1) where
  -- The loop ends at the first certificate that is not added.
  unfoldable pub add_certificates_left : List Certificate → SignedData → SignedData
  add_certificates_left [] sd = sd
  add_certificates_left (c ∷ certs) sd = elim (add_certificate asn1 c sd) [
    | ok sd' ↦ add_certificates_left certs sd'
    | err _ ↦ sd
    | panic ↦ sd
    | stuck ↦ sd
  ]

  unfoldable pub set_certificates_left : List Certificate → SignedData → SignedData
  set_certificates_left certs sd = add_certificates_left certs (clear_certificates sd)

  -- The encodings of certificates, one after the other.
  pub data Encodes : List Certificate → List RawValue → Type 0 where
    no_encodings : Encodes [] []
    next_encoding :
        {c : Certificate} {rv : RawValue} {rest : Bytes} {chain : List Certificate}
        {raws : List RawValue}
        → asn1.unmarshal_raw c.raw ≡ some (rv, rest)
        → Encodes chain raws
        → Encodes (c ∷ chain) (rv ∷ raws)

  -- Nothing but the first n certificates of the chain was added.
  pub record AddsFirst (n : ℕ) (chain : List Certificate) (sd left : SignedData) : Type 0 where
    pub raws : List RawValue
    pub are_encoded : Encodes (take n chain) raws
    pub are_behind : or_nil left.certificates ≡ or_nil sd.certificates ++ raws
    pub is_same : SameButCertificates sd left

  abbrev pub AddsFront : List Certificate → SignedData → SignedData → Type 0
  AddsFront chain sd left = (n : ℕ) × AddsFirst n chain sd left

  pub AddsFirst-none : (chain : List Certificate) (sd : SignedData) → AddsFirst 0 chain sd sd
  AddsFirst-none chain sd = record {
    raws = [];
    are_encoded = no_encodings;
    are_behind = sym (append-nil (or_nil sd.certificates));
    is_same = (refl, refl, refl);
  }

  pub add_certificate-AddsFirst :
      (c : Certificate) (n : ℕ) (chain : List Certificate) (sd sd' left : SignedData)
      → add_certificate asn1 c sd ≡ ok sd'
      → AddsFirst n chain sd' left
      → AddsFirst (suc n) (c ∷ chain) sd left
  unfolding add_certificate
  add_certificate-AddsFirst c n chain sd sd' left h a =
      let (_, _, h₁) =
        >>=-eq-ok (fail_if (is_added (or_nil sd.certificates) c.raw) certificate_already_added) _
          h in
      let ((rv, rest), e, h₂) = >>=-eq-ok (or_err (asn1.unmarshal_raw c.raw) asn1_failed) _ h₁ in
      let stored = ap (λ (x : SignedData). or_nil x.certificates) (sym (ok-injective h₂)) in
      let (x, y, z) = add_certificate-Same asn1 c sd sd' h in
      let (x', y', z') = a.is_same in
      record {
        raws = rv ∷ a.raws;
        are_encoded = next_encoding (or_err-eq-ok _ asn1_failed e) a.are_encoded;
        are_behind =
            a.are_behind
            ∙ ap (λ l. l ++ a.raws) stored
            ∙ append_assoc (or_nil sd.certificates) (rv ∷ []) a.raws;
        is_same = (x' ∙ x, y' ∙ y, z' ∙ z);
      }

  read-cases :
      (c : Certificate) (sd : SignedData) (o : Option (RawValue × Bytes))
      → let r = or_err o asn1_failed >>= λ x.
          ok (record sd { certificates = some (or_nil sd.certificates ++ (x.0 ∷ [])) }) in
        ((sd' : SignedData) × (r ≡ ok sd')) ⊎ ((e : Error) × (r ≡ err e))
  read-cases c sd none = inr (asn1_failed, refl)
  read-cases c sd (some x) = inl (_, refl)

  add_certificate-cases :
      (c : Certificate) (sd : SignedData)
      → ((sd' : SignedData) × (add_certificate asn1 c sd ≡ ok sd'))
        ⊎ ((e : Error) × (add_certificate asn1 c sd ≡ err e))
  unfolding add_certificate
  add_certificate-cases c sd = elim (Bool-cases (is_added (or_nil sd.certificates) c.raw)) [
    | inl e ↦ inr (certificate_already_added, rw e refl)
    | inr e ↦ rw e (read-cases c sd (asn1.unmarshal_raw c.raw))
  ]

  -- All certificates were added without an error, or fewer with one.
  abbrev pub AllOrFewer : List Certificate → SignedData → ℕ → Result SignedData → Type 0
  AllOrFewer certs left n r =
      ((r ≡ ok left) × (n ≡ length certs)) ⊎ ((e : Error) × (r ≡ err e) × (n < length certs))

  add_certificates_left-AddsFirst :
      (certs : List Certificate) (sd : SignedData)
      → (n : ℕ) × AddsFirst n certs sd (add_certificates_left certs sd)
        × AllOrFewer certs (add_certificates_left certs sd) n (add_certificates asn1 certs sd)
  unfolding add_certificates_left add_certificates
  add_certificates_left-AddsFirst [] sd = (0, AddsFirst-none [] sd, inl (refl, refl))
  add_certificates_left-AddsFirst (c ∷ certs) sd = elim (add_certificate-cases c sd) [
    | inl (sd', h) ↦
        let (n, a, outcome) = add_certificates_left-AddsFirst certs sd' in
        rw (h, add_certificates_left)
          (
            suc n,
            add_certificate-AddsFirst c n certs sd sd' _ h a,
            elim outcome [
              | inl (is_ok, all) ↦ inl (is_ok, ap suc all)
              | inr (e, is_err, fewer) ↦ inr (e, is_err, omega arith)
            ],
          )
    | inr (e, h) ↦
        rw (h, add_certificates_left) (0, AddsFirst-none (c ∷ certs) sd, inr (e, refl, omega arith))
  ]

  -- SetCertificates that returns no error leaves the message that it was given with its certificates
  -- replaced by all those of the list; with an error, by the first of them, and not by all. The content,
  -- the signers and the digest algorithms stay as they were.
  pub set_certificates_left-AddsFirst :
      (certs : List Certificate) (sd : SignedData)
      → (n : ℕ) × AddsFirst n certs (with_certificates sd []) (set_certificates_left certs sd)
        × AllOrFewer certs (set_certificates_left certs sd) n (set_certificates asn1 certs sd)
  unfolding set_certificates_left set_certificates clear_certificates
  set_certificates_left-AddsFirst certs sd =
      add_certificates_left-AddsFirst certs (clear_certificates sd)
