-- ===== src/Protocol/Messages.antt =====
-- Whole messages: ContentInfo and SignedData of ietf-cms/protocol/protocol.go, with the functions of
-- ietf-cms/signed_data.go that read and write them, and Attributes.MarshaledForVerification.
use git_kmssign.Base.{
  true, not, List, [], ◌∷◌, Bytes, bytes_eq, Option, Result, ok, panic, ◌>>=◌, ◌>>◌, fail_if,
  or_err, asn1_failed, wrong_type,
}
use git_kmssign.Oids.{content_type_signed_data}
use git_kmssign.Ber.{ber2der}
use git_kmssign.Protocol.{Attribute, ContentInfo, SignedData, Asn1}
use git_kmssign.Protocol.Content.{new_data_encapsulated_content_info, data_e_content}
use git_kmssign.Protocol.Signed.{new_signed_data}
use git_kmssign.Protocol.Signers.{class_context_specific, whole}

-- raw.Bytes[0] = 0x31
unfoldable pub as_set : Bytes → Result Bytes
as_set [] = panic
as_set (b ∷ bs) = ok (0x31 ∷ bs)

module _ (asn1 : Asn1) where
  unfoldable pub parse_content_info : Bytes → Result ContentInfo
  parse_content_info ber = do der ← ber2der ber; whole (asn1.unmarshal_content_info der)

  unfoldable pub signed_data_content : ContentInfo → Result SignedData
  signed_data_content ci = do
    fail_if (not (bytes_eq ci.content_type content_type_signed_data)) wrong_type
    whole (asn1.unmarshal_signed_data ci.content.bytes)

  pub content_info : SignedData → Result ContentInfo
  content_info sd = do
    der ← or_err (asn1.marshal_signed_data sd) asn1_failed
    ok (record {
      content_type = content_type_signed_data;
      content = record {
        tag_class = class_context_specific;
        tag = 0;
        is_compound = true;
        bytes = der;
        full_bytes = [];
      };
    })

  pub content_info_der : SignedData → Result Bytes
  content_info_der sd = do ci ← content_info sd; or_err (asn1.marshal_content_info ci) asn1_failed

  unfoldable pub marshaled_for_verification : List Attribute → Result Bytes
  marshaled_for_verification attrs = do
    seq ← or_err (asn1.marshal_sequence attrs) asn1_failed
    (raw, _) ← or_err (asn1.unmarshal_raw seq) asn1_failed
    as_set raw.bytes

  -- NewSignedData, ParseSignedData, GetData and ToDER of ietf-cms/signed_data.go.
  pub new_signed_message : Bytes → Result SignedData
  new_signed_message message = do
    eci ← new_data_encapsulated_content_info asn1 message
    ok (new_signed_data eci)

  unfoldable pub parse_signed_data : Bytes → Result SignedData
  parse_signed_data ber = do ci ← parse_content_info ber; signed_data_content ci

  pub get_data : SignedData → Result (Option Bytes)
  get_data sd = data_e_content asn1 sd.encap_content_info

  pub to_der : SignedData → Result Bytes
  to_der sd = content_info_der sd
