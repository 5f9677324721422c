-- ===== src/Protocol/Attributes.antt =====
-- ietf-cms/protocol/any_set.go, and the attributes of ietf-cms/protocol/protocol.go.
pub mod Correct
use git_kmssign.Base.{
  ℕ, zero, suc, Bool, true, false, not, ◌||◌, List, [], ◌∷◌, ◌++◌, length, Bytes, ◌==◌, bytes_eq,
  if◌then◌else◌, Option, none, some, Result, ok, err, stuck, ◌>>=◌, ◌>>◌, fail_if, or_err,
  asn1_failed, bad_set_class, bad_set_tag, bad_attribute_count, bad_element_count,
}
use git_kmssign.Cert.{Oid}
use git_kmssign.Protocol.{RawValue, Attribute, Asn1}

abbrev pub class_universal : ℕ
class_universal = 0

abbrev pub tag_set : ℕ
tag_set = 17

-- AnySet: its elements.
abbrev pub AnySet : Type 0
AnySet = List RawValue

module _ (asn1 : Asn1) where
  -- The loop of DecodeAnySet, on fuel.
  unfoldable pub decode_elements : ℕ → Bytes → Result AnySet
  decode_elements f [] = ok []
  decode_elements zero (b ∷ der) = stuck
  decode_elements (suc f) (b ∷ der) = do
    (rv, rest) ← or_err (asn1.unmarshal_raw (b ∷ der)) asn1_failed
    elements ← decode_elements f rest
    ok (rv ∷ elements)

  unfoldable pub decode_any_set : RawValue → Result AnySet
  decode_any_set rv = do
    fail_if (not (rv.tag_class == class_universal)) bad_set_class
    fail_if (not (rv.tag == tag_set)) bad_set_tag
    decode_elements (length rv.bytes) rv.bytes

  -- The loop of GetValues.
  unfoldable pub get_values : List Attribute → Oid → Result (List AnySet)
  get_values [] oid = ok []
  get_values (attr ∷ attrs) oid =
      let others = get_values attrs oid in
      let with_value =
        decode_any_set attr.raw_value >>= λ val. others >>= λ vals. ok (val ∷ vals) in
      if bytes_eq attr.kind oid then with_value else others

  -- The checks of GetOnlyAttributeValueBytes on the sets that GetValues found.
  unfoldable pub only_value : List AnySet → Result RawValue
  only_value ((rv ∷ []) ∷ []) = ok rv
  only_value (elements ∷ []) = err bad_element_count
  only_value _ = err bad_attribute_count

  unfoldable pub get_only_attribute_value_bytes : List Attribute → Oid → Result RawValue
  get_only_attribute_value_bytes attrs oid = do vals ← get_values attrs oid; only_value vals

pub has_attribute : List Attribute → Oid → Bool
has_attribute [] oid = false
has_attribute (attr ∷ attrs) oid = bytes_eq attr.kind oid || has_attribute attrs oid
