-- ===== src/Protocol/Attributes/Correct.antt =====
-- GetOnlyAttributeValueBytes of ietf-cms/protocol/protocol.go finds an attribute only if there is no
-- doubt about its value.
use git_kmssign.Base.{
  ◌≡◌, refl, ap, ◌↔◌, true, false, List, [], ◌∷◌, ◌++◌, All, bytes_eq, Bool-cases, inl, inr, ok,
  >>=-eq-ok,
}
use git_kmssign.Cert.{Oid}
use git_kmssign.Protocol.{RawValue, Attribute, Asn1}
use git_kmssign.Protocol.Attributes.{
  AnySet, decode_any_set, get_values, only_value, get_only_attribute_value_bytes,
}

-- No attribute is of the kind.
abbrev pub Absent : Oid → List Attribute → Type 0
Absent oid = All (λ (a : Attribute). bytes_eq a.kind oid ≡ false)

module _ (asn1 : Asn1) where
  -- One attribute is of the kind, and its set decodes to `elements`.
  abbrev pub Once : Oid → AnySet → List Attribute → Type 0
  Once oid elements attrs =
      (front : List Attribute) × (attr : Attribute) × (back : List Attribute) × (attrs
        ≡ front ++ (attr ∷ back))
      × Absent oid front
      × (bytes_eq attr.kind oid ≡ true)
      × Absent oid back
      × (decode_any_set asn1 attr.raw_value ≡ ok elements)

  Absent-get_values :
      (attrs : List Attribute) (oid : Oid) → get_values asn1 attrs oid ≡ ok [] → Absent oid attrs
  unfolding get_values
  Absent-get_values [] oid h = tt
  Absent-get_values (a ∷ attrs) oid h = elim (Bool-cases (bytes_eq a.kind oid)) [
    | inl same ↦
        let (v, _, rest) = >>=-eq-ok (decode_any_set asn1 a.raw_value) _ (rw same at h) in
        let (vs, _, e) = >>=-eq-ok (get_values asn1 attrs oid) _ rest in cc
    | inr other ↦ (other, Absent-get_values attrs oid (rw other at h))
  ]

  pub get_values-Absent :
      (attrs : List Attribute) (oid : Oid) → Absent oid attrs → get_values asn1 attrs oid ≡ ok []
  unfolding get_values
  get_values-Absent [] oid h = refl
  get_values-Absent (a ∷ attrs) oid (other, h) = rw other (get_values-Absent attrs oid h)

  Once-get_values :
      (attrs : List Attribute) (oid : Oid) (elements : AnySet)
      → get_values asn1 attrs oid ≡ ok (elements ∷ [])
      → Once oid elements attrs
  unfolding get_values
  Once-get_values [] oid elements h = cc
  Once-get_values (a ∷ attrs) oid elements h = elim (Bool-cases (bytes_eq a.kind oid)) [
    | inl same ↦
        let (v, dec, rest) = >>=-eq-ok (decode_any_set asn1 a.raw_value) _ (rw same at h) in
        let (vs, e, e') = >>=-eq-ok (get_values asn1 attrs oid) _ rest in
        ([], a, attrs, refl, tt, same, Absent-get_values attrs oid (cc), cc)
    | inr other ↦
        let (front, attr, back, e, f, k, b, d) =
          Once-get_values attrs oid elements (rw other at h) in
        (a ∷ front, attr, back, ap (λ l. a ∷ l) e, (other, f), k, b, d)
  ]

  get_values-Once :
      (front back : List Attribute) (attr : Attribute) (oid : Oid) (elements : AnySet)
      → Absent oid front
      → bytes_eq attr.kind oid ≡ true
      → Absent oid back
      → decode_any_set asn1 attr.raw_value ≡ ok elements
      → get_values asn1 (front ++ (attr ∷ back)) oid ≡ ok (elements ∷ [])
  unfolding get_values
  get_values-Once [] back attr oid elements f k b d = rw (k, d, get_values-Absent back oid b) refl
  get_values-Once (a ∷ front) back attr oid elements (other, f) k b d =
      rw other (get_values-Once front back attr oid elements f k b d)

  only_value-ok :
      (vals : List AnySet) (rv : RawValue) → only_value asn1 vals ≡ ok rv → vals ≡ (rv ∷ []) ∷ []
  unfolding only_value
  only_value-ok [] rv h = cc
  only_value-ok (([]) ∷ []) rv h = cc
  only_value-ok ((x ∷ []) ∷ []) rv h = cc
  only_value-ok ((x ∷ y ∷ l) ∷ []) rv h = cc
  only_value-ok ([] ∷ v ∷ vals) rv h = cc
  only_value-ok ((x ∷ []) ∷ v ∷ vals) rv h = cc
  only_value-ok ((x ∷ y ∷ l) ∷ v ∷ vals) rv h = cc

  -- GetOnlyAttributeValueBytes returns a value exactly if one attribute is of the kind that is asked
  -- for, no other is, and its set holds that value and no other.
  pub get_only_attribute_value_bytes_iff :
      (attrs : List Attribute) (oid : Oid) (rv : RawValue)
      → (get_only_attribute_value_bytes asn1 attrs oid ≡ ok rv) ↔ Once oid (rv ∷ []) attrs
  unfolding get_only_attribute_value_bytes only_value
  get_only_attribute_value_bytes_iff attrs oid rv = (
    λ h.
        let (vals, e, e') = >>=-eq-ok (get_values asn1 attrs oid) _ h in
        let only = only_value-ok vals rv e' in Once-get_values attrs oid (rv ∷ []) (cc),
    λ (front, attr, back, e, f, k, b, d).
        rw (e, get_values-Once front back attr oid (rv ∷ []) f k b d) refl,
  )
