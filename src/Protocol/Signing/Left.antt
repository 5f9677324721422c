-- ===== src/Protocol/Signing/Left.antt =====
-- The message that AddSignerInfo of ietf-cms/protocol/protocol.go leaves, with an error or without.
use git_kmssign.Base.{
  suc, ℕ, ◌≡◌, ◌≢◌, refl, List, [], ◌∷◌, Bytes, Option, none, some, Result, inl, inr, ◌⊎◌, ok, err,
  panic, stuck, subst,
}
use git_kmssign.Cert.{Certificate}
use git_kmssign.Protocol.{SignedData, Asn1}
use git_kmssign.Protocol.Signed.{add_certificate}
use git_kmssign.Protocol.Signed.Left.{AddsFirst, AddsFirst-none, add_certificate-AddsFirst}
use git_kmssign.Protocol.Signing.{Crypto, Signer, add_signer_info}

-- The message that is returned, or else another.
abbrev returned_or : Result SignedData → SignedData → SignedData
returned_or (ok sd) left = sd
returned_or _ left = left

returned_or-cases :
    (r : Result SignedData) (left : SignedData)
    → (r ≡ ok (returned_or r left))
      ⊎ (((sd : SignedData) → r ≢ ok sd) × (left ≡ returned_or r left))
returned_or-cases (ok sd) left = inl refl
returned_or-cases (err e) left = inr ((λ sd h. cc), refl)
returned_or-cases panic left = inr ((λ sd h. cc), refl)
returned_or-cases stuck left = inr ((λ sd h. cc), refl)

module _ (asn1 : Asn1) (crypto : Crypto) where
  -- The loop over the chain ends at the first certificate that is not added or has no key, which is added.
  unfoldable pub add_chain_left : List Certificate → SignedData → SignedData
  add_chain_left [] sd = sd
  add_chain_left (c ∷ chain) sd = elim (add_certificate asn1 c sd) [
    | ok sd' ↦ elim (crypto.certificate_key c) [ some _ ↦ add_chain_left chain sd' | none ↦ sd' ]
    | err _ ↦ sd
    | panic ↦ sd
    | stuck ↦ sd
  ]

  -- An error in front of the loop or in it, or behind it, where the message is not changed before the
  -- end.
  unfoldable pub add_signer_info_left : List Certificate → Signer → SignedData → SignedData
  add_signer_info_left chain signer sd =
      returned_or (add_signer_info asn1 crypto chain signer sd)
        (elim signer.public_key [ some _ ↦ add_chain_left chain sd | none ↦ sd ])

  -- Where the loop over the chain ends, and the message there, with the number of the certificates that
  -- were added: all of them; or those before the first that is not added; or those up to the first that
  -- has no key.
  pub data StopsAt : ℕ → List Certificate → SignedData → SignedData → Type 0 where
    at_end : {sd : SignedData} → StopsAt 0 [] sd sd
    not_added :
        {c : Certificate} {chain : List Certificate} {sd : SignedData}
        → ((sd' : SignedData) → add_certificate asn1 c sd ≢ ok sd')
        → StopsAt 0 (c ∷ chain) sd sd
    without_key :
        {c : Certificate} {chain : List Certificate} {sd sd' : SignedData}
        → add_certificate asn1 c sd ≡ ok sd'
        → crypto.certificate_key c ≡ none
        → StopsAt 1 (c ∷ chain) sd sd'
    further :
        {n : ℕ} {c : Certificate} {chain : List Certificate} {sd sd' left : SignedData}
        {key : Bytes}
        → add_certificate asn1 c sd ≡ ok sd'
        → crypto.certificate_key c ≡ some key
        → StopsAt n chain sd' left
        → StopsAt (suc n) (c ∷ chain) sd left

  -- The loop ended there, and nothing but the certificates in front of the end was added.
  abbrev pub Stopped : List Certificate → SignedData → SignedData → Type 0
  Stopped chain sd left = (n : ℕ) × StopsAt n chain sd left × AddsFirst asn1 n chain sd left

  key-Stopped :
      (c : Certificate) (chain : List Certificate) (sd sd' : SignedData) (key : Option Bytes)
      → add_certificate asn1 c sd ≡ ok sd'
      → crypto.certificate_key c ≡ key
      → Stopped chain sd' (add_chain_left chain sd')
      → Stopped (c ∷ chain) sd (elim key [ some _ ↦ add_chain_left chain sd' | none ↦ sd' ])
  key-Stopped c chain sd sd' (some key) h k (n, stops, adds) =
      (suc n, further h k stops, add_certificate-AddsFirst asn1 c n chain sd sd' _ h adds)
  key-Stopped c chain sd sd' none h k others = (
    1,
    without_key h k,
    add_certificate-AddsFirst asn1 c 0 chain sd sd' _ h (AddsFirst-none asn1 chain sd'),
  )

  added-Stopped :
      (c : Certificate) (chain : List Certificate) (sd : SignedData) (r : Result SignedData)
      → add_certificate asn1 c sd ≡ r
      → ((sd' : SignedData) → Stopped chain sd' (add_chain_left chain sd'))
      → Stopped (c ∷ chain) sd (elim r [
        | ok sd' ↦ elim (crypto.certificate_key c) [
          | some _ ↦ add_chain_left chain sd'
          | none ↦ sd'
        ]
        | err _ ↦ sd
        | panic ↦ sd
        | stuck ↦ sd
      ])
  added-Stopped c chain sd (ok sd') h others =
      key-Stopped c chain sd sd' (crypto.certificate_key c) h refl (others sd')
  added-Stopped c chain sd (err e) h others =
      (0, not_added (λ sd' h'. cc), AddsFirst-none asn1 (c ∷ chain) sd)
  added-Stopped c chain sd panic h others =
      (0, not_added (λ sd' h'. cc), AddsFirst-none asn1 (c ∷ chain) sd)
  added-Stopped c chain sd stuck h others =
      (0, not_added (λ sd' h'. cc), AddsFirst-none asn1 (c ∷ chain) sd)

  add_chain_left-Stopped :
      (chain : List Certificate) (sd : SignedData) → Stopped chain sd (add_chain_left chain sd)
  unfolding add_chain_left
  add_chain_left-Stopped [] sd = (0, at_end, AddsFirst-none asn1 [] sd)
  add_chain_left-Stopped (c ∷ chain) sd =
      added-Stopped c chain sd (add_certificate asn1 c sd) refl
        (λ sd'. add_chain_left-Stopped chain sd')

  -- What an error leaves: the message as it was, if the signer has no key, or what the loop left.
  pub data LeftBehind (chain : List Certificate) (signer : Signer) (sd left : SignedData)
      : Type 0 where
    without_signer_key : signer.public_key ≡ none → left ≡ sd → LeftBehind chain signer sd left
    stopped :
        {key : Bytes}
        → signer.public_key ≡ some key
        → Stopped chain sd left
        → LeftBehind chain signer sd left

  left-LeftBehind :
      (chain : List Certificate) (signer : Signer) (sd : SignedData) (key : Option Bytes)
      → signer.public_key ≡ key
      → LeftBehind chain signer sd (elim key [ some _ ↦ add_chain_left chain sd | none ↦ sd ])
  left-LeftBehind chain signer sd (some key) e = stopped e (add_chain_left-Stopped chain sd)
  left-LeftBehind chain signer sd none e = without_signer_key e refl

  -- The message that AddSignerInfo leaves is the one with the new signer, if it returns no error.
  -- Otherwise it is the one that it was given, if the signer has no key, or else that with certificates
  -- of the chain behind its own, up to the first that cannot be added or, with it, the first that has no
  -- key, or all, and with the content, the signers and the digest algorithms as they were.
  pub add_signer_info_left-LeftBehind :
      (chain : List Certificate) (signer : Signer) (sd : SignedData)
      → (add_signer_info asn1 crypto chain signer sd ≡ ok (add_signer_info_left chain signer sd))
        ⊎ (((sd' : SignedData) → add_signer_info asn1 crypto chain signer sd ≢ ok sd')
            × LeftBehind chain signer sd (add_signer_info_left chain signer sd))
  unfolding add_signer_info_left
  add_signer_info_left-LeftBehind chain signer sd =
      let behind = left-LeftBehind chain signer sd signer.public_key refl in
      elim (returned_or-cases (add_signer_info asn1 crypto chain signer sd) _) [
        | inl returned ↦ inl returned
        | inr (failed, same) ↦ inr (failed, subst (LeftBehind chain signer sd) same behind)
      ]
