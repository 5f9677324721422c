-- ===== src/Protocol/Content.antt =====
-- EncapsulatedContentInfo of ietf-cms/protocol/protocol.go: the signed content.
pub mod Correct
use git_kmssign.Base.{
  ℕ, zero, suc, Bool, true, false, not, ◌||◌, [], ◌∷◌, ◌++◌, length, Bytes, ◌==◌, if◌then◌else◌,
  Option, none, some, Result, ok, err, stuck, ◌>>=◌, ◌>>◌, fail_if, or_err, asn1_failed, wrong_type,
  bad_tag_or_class,
}
use git_kmssign.Cert.{Oid}
use git_kmssign.Oids.{content_type_data}
use git_kmssign.Protocol.{RawValue, EncapsulatedContentInfo, Asn1}
use git_kmssign.Protocol.Attributes.{class_universal}
use git_kmssign.Protocol.Signed.{is_type_data}
use git_kmssign.Protocol.Signers.{class_context_specific, tag_octet_string, whole}

-- The octet string of NewEncapsulatedContentInfo, before it is encoded.
abbrev pub octet_string : Bytes → RawValue
octet_string content = record {
  tag_class = class_universal;
  tag = tag_octet_string;
  is_compound = false;
  bytes = content;
  full_bytes = [];
}

-- append(value, segment...), where `none` is nil.
pub append_segment : Option Bytes → Bytes → Option Bytes
append_segment none [] = none
append_segment none (b ∷ bs) = some (b ∷ bs)
append_segment (some value) segment = some (value ++ segment)

module _ (asn1 : Asn1) where
  pub new_encapsulated_content_info : Oid → Bytes → Result EncapsulatedContentInfo
  new_encapsulated_content_info content_type content = do
    octets ← or_err (asn1.marshal_raw (octet_string content)) asn1_failed
    ok (record {
      e_content_type = content_type;
      e_content = some (record {
        tag_class = class_context_specific;
        tag = 0;
        is_compound = true;
        bytes = octets;
        full_bytes = [];
      });
    })

  pub new_data_encapsulated_content_info : Bytes → Result EncapsulatedContentInfo
  new_data_encapsulated_content_info content =
      new_encapsulated_content_info content_type_data content

  -- The loop over the segments of a constructed string, on fuel.
  unfoldable pub join_segments : ℕ → Bytes → Option Bytes → Result (Option Bytes)
  join_segments f [] value = ok value
  join_segments zero (b ∷ rest) value = stuck
  join_segments (suc f) (b ∷ rest) value = do
    (octets, rest') ← or_err (asn1.unmarshal_raw (b ∷ rest)) asn1_failed
    fail_if
        (not (octets.tag_class == class_universal)
          || not (octets.tag == tag_octet_string)
          || octets.is_compound)
        bad_tag_or_class
    join_segments f rest' (append_segment value octets.bytes)

  unfoldable pub octets_value : RawValue → Result (Option Bytes)
  octets_value octets =
      let joined = join_segments (length octets.bytes) octets.bytes none in
      if octets.is_compound then joined else ok (some octets.bytes)

  -- `none` is a nil slice, which stands for content that is not there.
  unfoldable pub e_content_value_of : Option RawValue → Result (Option Bytes)
  e_content_value_of none = ok none
  e_content_value_of (some e_content) = do
    octets ← whole (asn1.unmarshal_raw e_content.bytes)
    fail_if (not (octets.tag_class == class_universal) || not (octets.tag == tag_octet_string))
        bad_tag_or_class
    octets_value octets

  unfoldable pub e_content_value : EncapsulatedContentInfo → Result (Option Bytes)
  e_content_value eci = e_content_value_of eci.e_content

  pub data_e_content : EncapsulatedContentInfo → Result (Option Bytes)
  data_e_content eci = do fail_if (not (is_type_data eci)) wrong_type; e_content_value eci
