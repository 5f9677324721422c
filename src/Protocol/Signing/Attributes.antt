-- ===== src/Protocol/Signing/Attributes.antt =====
-- The signed attributes that AddSignerInfo of ietf-cms/protocol/protocol.go makes.
use git_kmssign.Base.{
  ◌≡◌, refl, ap, sym, ◌∙◌, subst, true, List, [], ◌∷◌, append-nil, Bytes, Option, some, ok,
  >>=-eq-ok, or_err, or_err-eq-ok, ok-injective, asn1_failed,
}
use mathlib.Core.List.{Perm}
use git_kmssign.Cert.{Oid}
use git_kmssign.Oids.{attribute_signing_time, attribute_message_digest, attribute_content_type}
use git_kmssign.Protocol.{RawValue, Attribute, Asn1}
use git_kmssign.Protocol.Signing.{
  Crypto, encode_elements, encode_any_set, new_attribute, signed_attributes, marshaled_for_signing,
}
use git_kmssign.Protocol.Signing.Sorting.{Sorted, sort_attributes-Sorted}

module _ (asn1 : Asn1) where
  -- A SET of one element, with its encoding.
  pub record IsSetOf (rv raw : RawValue) : Type 0 where
    pub content : Bytes
    pub is_content : asn1.marshal_raw rv ≡ some content
    pub is_set : raw ≡ record {
      tag_class = 0;
      tag = 17;
      is_compound = true;
      bytes = content;
      full_bytes = raw.full_bytes;
    }
    pub is_whole :
        asn1.marshal_raw
          (record { tag_class = 0; tag = 17; is_compound = true; bytes = content; full_bytes = [] })
        ≡ some raw.full_bytes

  -- An attribute of a kind, whose one value is read from an encoding.
  pub record HasValue (kind : Oid) (value : Option Bytes) (attr : Attribute) : Type 0 where
    pub der : Bytes
    pub rest : Bytes
    pub rv : RawValue
    pub is_value : value ≡ some der
    pub is_read : asn1.unmarshal_raw der ≡ some (rv, rest)
    pub is_kind : attr.kind ≡ kind
    pub is_set : IsSetOf rv attr.raw_value

  encode_any_set-IsSetOf :
      (rv raw : RawValue) → encode_any_set asn1 (rv ∷ []) ≡ ok raw → IsSetOf rv raw
  unfolding encode_any_set encode_elements
  encode_any_set-IsSetOf rv raw h =
      let (content, e₁, h₁) = >>=-eq-ok (encode_elements asn1 (rv ∷ [])) _ h in
      let (der, e₂, h₂) = >>=-eq-ok (or_err (asn1.marshal_raw rv) asn1_failed) _ e₁ in
      let (full, e₃, h₃) = >>=-eq-ok (or_err (asn1.marshal_raw _) asn1_failed) _ h₁ in
      let same : der ≡ content = sym (append-nil der) ∙ ok-injective h₂ in
      subst (IsSetOf rv) (ok-injective h₃) (record {
        content = content;
        is_content = or_err-eq-ok _ asn1_failed e₂ ∙ ap (λ c. some c) same;
        is_set = refl;
        is_whole = or_err-eq-ok _ asn1_failed e₃;
      })

  new_attribute-HasValue :
      (kind : Oid) (value : Option Bytes) (attr : Attribute)
      → new_attribute asn1 kind value ≡ ok attr
      → HasValue kind value attr
  unfolding new_attribute
  new_attribute-HasValue kind value attr h =
      let (der, e₁, h₁) = >>=-eq-ok (or_err value asn1_failed) _ h in
      let ((rv, rest), e₂, h₂) = >>=-eq-ok (or_err (asn1.unmarshal_raw der) asn1_failed) _ h₁ in
      let (raw, e₃, h₃) = >>=-eq-ok (encode_any_set asn1 (rv ∷ [])) _ h₂ in
      subst (HasValue kind value) (ok-injective h₃) (record {
        der = der;
        rest = rest;
        rv = rv;
        is_value = or_err-eq-ok value asn1_failed e₁;
        is_read = or_err-eq-ok _ asn1_failed e₂;
        is_kind = refl;
        is_set = encode_any_set-IsSetOf rv raw e₃;
      })

  -- The time, the digest and the type of the content, sorted.
  pub record AreSigned (crypto : Crypto) (content_type : Oid) (digest : Bytes)
      (attrs : List Attribute) : Type 0 where
    pub time : Attribute
    pub md : Attribute
    pub kind : Attribute
    pub is_time : HasValue attribute_signing_time (asn1.marshal_time crypto.now) time
    pub is_digest : HasValue attribute_message_digest (asn1.marshal_octets digest) md
    pub is_kind : HasValue attribute_content_type (asn1.marshal_oid content_type) kind
    pub are_these : Perm (time ∷ md ∷ kind ∷ []) attrs
    pub are_sorted : Sorted attrs

  pub signed_attributes-AreSigned :
      (crypto : Crypto) (content_type : Oid) (digest : Bytes) (attrs : List Attribute)
      → signed_attributes asn1 crypto content_type digest ≡ ok attrs
      → AreSigned crypto content_type digest attrs
  unfolding signed_attributes
  signed_attributes-AreSigned crypto content_type digest attrs h =
      let (st, e₁, h₁) =
        >>=-eq-ok (new_attribute asn1 attribute_signing_time (asn1.marshal_time crypto.now)) _ h in
      let (md, e₂, h₂) =
        >>=-eq-ok (new_attribute asn1 attribute_message_digest (asn1.marshal_octets digest)) _ h₁ in
      let (ct, e₃, h₃) =
        >>=-eq-ok (new_attribute asn1 attribute_content_type (asn1.marshal_oid content_type)) _
          h₂ in
      let (sorted, perm) = sort_attributes-Sorted (st ∷ md ∷ ct ∷ []) in
      subst (AreSigned crypto content_type digest) (ok-injective h₃) (record {
        time = st;
        md = md;
        kind = ct;
        is_time = new_attribute-HasValue _ _ st e₁;
        is_digest = new_attribute-HasValue _ _ md e₂;
        is_kind = new_attribute-HasValue _ _ ct e₃;
        are_these = perm;
        are_sorted = sorted;
      })

  -- The contents of the encoding of attributes, without its tag and length.
  pub record IsContents (attrs : List Attribute) (message : Bytes) : Type 0 where
    pub seq : Bytes
    pub raw : RawValue
    pub rest : Bytes
    pub is_seq : asn1.marshal_set attrs ≡ some seq
    pub is_read : asn1.unmarshal_raw seq ≡ some (raw, rest)
    pub is_message : raw.bytes ≡ message

  pub marshaled_for_signing-IsContents :
      (attrs : List Attribute) (message : Bytes)
      → marshaled_for_signing asn1 attrs ≡ ok message
      → IsContents attrs message
  unfolding marshaled_for_signing
  marshaled_for_signing-IsContents attrs message h =
      let (seq, e₁, h₁) = >>=-eq-ok (or_err (asn1.marshal_set attrs) asn1_failed) _ h in
      let ((raw, rest), e₂, h₂) = >>=-eq-ok (or_err (asn1.unmarshal_raw seq) asn1_failed) _ h₁ in
      record {
        seq = seq;
        raw = raw;
        rest = rest;
        is_seq = or_err-eq-ok _ asn1_failed e₁;
        is_read = or_err-eq-ok _ asn1_failed e₂;
        is_message = ok-injective h₂;
      }
