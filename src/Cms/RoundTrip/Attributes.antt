-- ===== src/Cms/RoundTrip/Attributes.antt =====
-- The attributes that AddSignerInfo of ietf-cms/protocol/protocol.go signs are found again.
use git_kmssign.Base.{
  ◌≡◌, ◌≢◌, refl, sym, ap, ◌∙◌, subst, true, false, List, [], ◌∷◌, ◌++◌, append-nil, Bytes,
  bytes_eq, bytes_eq_iff, length, ◌==◌, ==_iff, Bool-cases, inl, inr, Option, some, ok, or_err,
  >>=-eq-ok, or_err-eq-ok, ok-injective, asn1_failed,
}
use git_kmssign.Cert.{Oid}
use git_kmssign.Oids.{attribute_signing_time, attribute_message_digest, attribute_content_type}
use git_kmssign.Protocol.{RawValue, Attribute, SignerInfo, Asn1}
use git_kmssign.Protocol.Attributes.{
  AnySet, decode_elements, decode_any_set, get_values, only_value, get_only_attribute_value_bytes,
}
use git_kmssign.Protocol.Attributes.Correct.{Absent, get_values-Absent}
use git_kmssign.Protocol.Signers.{
  attrs_of, get_content_type_attribute, get_message_digest_attribute,
}
use git_kmssign.Protocol.Signing.{
  Crypto, bytes_less, insert_attribute, sort_attributes, encode_elements, encode_any_set,
  new_attribute, signed_attributes,
}
use git_kmssign.Cms.RoundTrip.{ReadsBack}

module _ (asn1 : Asn1) where
  -- Sorting in an attribute of another kind does not matter.
  insert_attribute-other :
      (a : Attribute) (attrs : List Attribute) (oid : Oid)
      → bytes_eq a.kind oid ≡ false
      → get_values asn1 (insert_attribute a attrs) oid ≡ get_values asn1 attrs oid
  unfolding insert_attribute get_values
  insert_attribute-other a [] oid other = rw other refl
  insert_attribute-other a (b ∷ attrs) oid other =
      elim (Bool-cases (bytes_less b.raw_value.full_bytes a.raw_value.full_bytes)) [
        | inl less ↦ rw (less, insert_attribute-other a attrs oid other) refl
        | inr not_less ↦ rw (not_less, other) refl
      ]

  -- Sorting in the one attribute of a kind puts its value among the others'.
  insert_attribute-Absent :
      (a : Attribute) (attrs : List Attribute) (oid : Oid) (elements : AnySet)
      → bytes_eq a.kind oid ≡ true
      → decode_any_set asn1 a.raw_value ≡ ok elements
      → Absent oid attrs
      → get_values asn1 (insert_attribute a attrs) oid ≡ ok (elements ∷ [])
  unfolding insert_attribute get_values
  insert_attribute-Absent a [] oid elements same decoded absent = rw (same, decoded) refl
  insert_attribute-Absent a (b ∷ attrs) oid elements same decoded (other, absent) =
      elim (Bool-cases (bytes_less b.raw_value.full_bytes a.raw_value.full_bytes)) [
        | inl less ↦
            rw (less, other) (insert_attribute-Absent a attrs oid elements same decoded absent)
        | inr not_less ↦
            rw (not_less, same, decoded, other, get_values-Absent asn1 attrs oid absent) refl
      ]

  decode_elements-one :
      (full : Bytes) (rv : RawValue)
      → full ≢ []
      → asn1.unmarshal_raw full ≡ some (rv, [])
      → decode_elements asn1 (length full) full ≡ ok (rv ∷ [])
  unfolding decode_elements
  decode_elements-one [] rv some_bytes e = absurd (some_bytes refl)
  decode_elements-one (b ∷ full) rv some_bytes e = rw e refl

  module _ (reads : ReadsBack asn1) where
    encode_any_set-decodes :
        (der rest : Bytes) (rv raw : RawValue)
        → asn1.unmarshal_raw der ≡ some (rv, rest)
        → encode_any_set asn1 (rv ∷ []) ≡ ok raw
        → decode_any_set asn1 raw ≡ ok (rv ∷ [])
    unfolding encode_any_set encode_elements decode_any_set
    encode_any_set-decodes der rest rv raw u h =
        let (full, m, some_bytes, u') = reads.raw_lem der rv rest u in
        let (content, e₁, h₁) = >>=-eq-ok (encode_elements asn1 (rv ∷ [])) _ h in
        let written : encode_elements asn1 (rv ∷ []) ≡ ok (full ++ []) = rw m refl in
        let same : full ≡ content = sym (append-nil full) ∙ ok-injective (sym written ∙ e₁) in
        let (whole_set, _, h₂) = >>=-eq-ok (or_err (asn1.marshal_raw _) asn1_failed) _ h₁ in
        subst (λ raw. decode_any_set asn1 raw ≡ ok (rv ∷ [])) (ok-injective h₂)
          (subst (λ c. decode_elements asn1 (length c) c ≡ ok (rv ∷ [])) same
            (decode_elements-one full rv some_bytes u'))

    -- A new attribute has the kind, and its set decodes to the value.
    new_attribute-decodes :
        (kind : Oid) (value : Option Bytes) (attr : Attribute)
        → new_attribute asn1 kind value ≡ ok attr
        → (der : Bytes) × (rv : RawValue) × (rest : Bytes) × (value ≡ some der)
          × (asn1.unmarshal_raw der ≡ some (rv, rest))
          × (attr.kind ≡ kind)
          × (decode_any_set asn1 attr.raw_value ≡ ok (rv ∷ []))
    unfolding new_attribute
    new_attribute-decodes kind value attr h =
        let (der, e₁, h₁) = >>=-eq-ok (or_err value asn1_failed) _ h in
        let ((rv, rest), e₂, h₂) = >>=-eq-ok (or_err (asn1.unmarshal_raw der) asn1_failed) _ h₁ in
        let (raw, e₃, h₃) = >>=-eq-ok (encode_any_set asn1 (rv ∷ [])) _ h₂ in
        let u = or_err-eq-ok _ asn1_failed e₂ in
        let made = ok-injective h₃ in
        (
          der,
          rv,
          rest,
          or_err-eq-ok value asn1_failed e₁,
          u,
          ap (λ (a : Attribute). a.kind) (sym made),
          subst (λ (a : Attribute). decode_any_set asn1 a.raw_value ≡ ok (rv ∷ [])) made
              (encode_any_set-decodes der rest rv raw u e₃),
        )

    other-kind :
        {kind kind' : Oid} (oid : Oid)
        → kind ≡ kind'
        → bytes_eq kind' oid ≡ false
        → bytes_eq kind oid ≡ false
    other-kind oid e h = rw e h

    -- Of three attributes of the three kinds, sorted, one is found of each kind.
    sort_attributes-found :
        (st md ct : Attribute) (md_rv ct_rv : RawValue)
        → st.kind ≡ attribute_signing_time
        → md.kind ≡ attribute_message_digest
        → ct.kind ≡ attribute_content_type
        → decode_any_set asn1 md.raw_value ≡ ok (md_rv ∷ [])
        → decode_any_set asn1 ct.raw_value ≡ ok (ct_rv ∷ [])
        → (get_values asn1 (sort_attributes (st ∷ md ∷ ct ∷ [])) attribute_content_type
            ≡ ok ((ct_rv ∷ []) ∷ []))
          × (get_values asn1 (sort_attributes (st ∷ md ∷ ct ∷ [])) attribute_message_digest
              ≡ ok ((md_rv ∷ []) ∷ []))
    unfolding sort_attributes
    sort_attributes-found st md ct md_rv ct_rv s m c md_set ct_set =
        let ct_oid = attribute_content_type in
        let md_oid = attribute_message_digest in
        let last = insert_attribute ct [] in
        (
          insert_attribute-other st (insert_attribute md last) ct_oid (other-kind ct_oid s refl)
              ∙ insert_attribute-other md last ct_oid (other-kind ct_oid m refl)
              ∙ insert_attribute-Absent ct [] ct_oid (ct_rv ∷ []) ((bytes_eq_iff _ _).1 c) ct_set
                  tt,
          insert_attribute-other st (insert_attribute md last) md_oid (other-kind md_oid s refl)
              ∙ insert_attribute-Absent md last md_oid (md_rv ∷ []) ((bytes_eq_iff _ _).1 m) md_set
                  (unfold insert_attribute in (other-kind md_oid c refl, tt)),
        )

    attrs_of-some :
        (si : SignerInfo) (attrs : List Attribute)
        → si.signed_attrs ≡ some attrs
        → attrs_of si ≡ attrs
    attrs_of-some si attrs h = rw h refl

    found-content_type :
        (si : SignerInfo) (kind : Oid) (rv : RawValue)
        → get_values asn1 (attrs_of si) attribute_content_type ≡ ok ((rv ∷ []) ∷ [])
        → asn1.unmarshal_oid rv.full_bytes ≡ some (kind, [])
        → get_content_type_attribute asn1 si ≡ ok kind
    unfolding get_content_type_attribute get_only_attribute_value_bytes only_value
    found-content_type si kind rv values read = rw (values, read) refl

    found-message_digest :
        (si : SignerInfo) (digest : Bytes) (rv : RawValue)
        → get_values asn1 (attrs_of si) attribute_message_digest ≡ ok ((rv ∷ []) ∷ [])
        → (rv.tag_class == 0) ≡ true
        → (rv.tag == 4) ≡ true
        → rv.bytes ≡ digest
        → get_message_digest_attribute asn1 si ≡ ok digest
    unfolding get_message_digest_attribute get_only_attribute_value_bytes only_value
    found-message_digest si digest rv values class_ok tag_ok same =
        rw (values, class_ok, tag_ok, same) refl

    -- The signed attributes hold the type of the content and its digest, and each of the two once.
    pub signed_attributes-found :
        (crypto : Crypto) (kind : Oid) (digest : Bytes) (attrs : List Attribute) (si : SignerInfo)
        → ((der : Bytes) (rv : RawValue) (rest : Bytes)
            → asn1.marshal_oid kind ≡ some der
            → asn1.unmarshal_raw der ≡ some (rv, rest)
            → asn1.unmarshal_oid rv.full_bytes ≡ some (kind, []))
        → signed_attributes asn1 crypto kind digest ≡ ok attrs
        → si.signed_attrs ≡ some attrs
        → (get_content_type_attribute asn1 si ≡ ok kind)
          × (get_message_digest_attribute asn1 si ≡ ok digest)
    unfolding signed_attributes
    signed_attributes-found crypto kind digest attrs si reads_kind h has =
        let (st, e₁, h₁) =
          >>=-eq-ok (new_attribute asn1 attribute_signing_time (asn1.marshal_time crypto.now)) _
            h in
        let (md, e₂, h₂) =
          >>=-eq-ok (new_attribute asn1 attribute_message_digest (asn1.marshal_octets digest)) _
            h₁ in
        let (ct, e₃, h₃) =
          >>=-eq-ok (new_attribute asn1 attribute_content_type (asn1.marshal_oid kind)) _ h₂ in
        let (_, _, _, _, _, st_kind, _) = new_attribute-decodes attribute_signing_time _ st e₁ in
        let (md_der, md_rv, md_rest, md_value, md_read, md_kind, md_set) =
          new_attribute-decodes attribute_message_digest _ md e₂ in
        let (ct_der, ct_rv, ct_rest, ct_value, ct_read, ct_kind, ct_set) =
          new_attribute-decodes attribute_content_type _ ct e₃ in
        let (ct_found, md_found) =
          sort_attributes-found st md ct md_rv ct_rv st_kind md_kind ct_kind md_set ct_set in
        let same : sort_attributes (st ∷ md ∷ ct ∷ []) ≡ attrs_of si =
          ok-injective h₃ ∙ sym (attrs_of-some si attrs has) in
        let (c, t, b) = reads.octets_lem digest md_der md_rv md_rest md_value md_read in
        (
          found-content_type si kind ct_rv
              (subst (λ l. get_values asn1 l attribute_content_type ≡ ok ((ct_rv ∷ []) ∷ [])) same
                ct_found)
              (reads_kind ct_der ct_rv ct_rest ct_value ct_read),
          found-message_digest si digest md_rv
              (subst (λ l. get_values asn1 l attribute_message_digest ≡ ok ((md_rv ∷ []) ∷ [])) same
                md_found)
              ((==_iff _ _).1 c) ((==_iff _ _).1 t) b,
        )
