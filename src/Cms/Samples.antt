-- ===== src/Cms/Samples.antt =====
-- A message with one signature, for the runs of other modules, over a small encoding.
use git_kmssign.Base.{◌≡◌, refl, List, [], ◌∷◌, length, bytes_eq, none, some, ok}
use git_kmssign.Cert.Samples.{leaf}
use git_kmssign.Oids.{
  look_up, content_type_signed_data, x509_public_key_and_digest_algorithm_to_signature_algorithm,
}
use git_kmssign.Protocol.{no_value, SignedData, Asn1}
use git_kmssign.Protocol.Samples.{
  toy, toy_signer, toy_crypto, attached_data, issued_leaf, or_else, signed_data,
}
use git_kmssign.Ber.{
  ber2der, read_object, read_sub_objects, read_tag, read_length, encode, encode_all, encode_length,
}
use git_kmssign.Protocol.Attributes.{
  decode_elements, decode_any_set, get_values, only_value, get_only_attribute_value_bytes,
}
use git_kmssign.Protocol.Content.{e_content_value, e_content_value_of, octets_value}
use git_kmssign.Protocol.Messages.{
  parse_content_info, signed_data_content, marshaled_for_verification, as_set, parse_signed_data,
}
use git_kmssign.Protocol.Signed.{
  add_digest_algorithm, has_digest_algorithm, add_certificate, is_added, x509_certificates,
  parse_all,
}
use git_kmssign.Protocol.Signers.{
  get_content_type_attribute, get_message_digest_attribute, find_certificate, find_certificate_by,
  issuer_and_serial_number_sid, first_certificate, is_issued, eq_ℤ, signer_hash,
  x509_signature_algorithm,
}
use git_kmssign.Protocol.Signing.{
  add_signer_info, add_chain, new_issuer_and_serial_number, unsigned_signer_info,
  digest_algorithm_for_public_key, sign_signer_info, signed_attributes, new_attribute,
  encode_any_set, encode_elements, sort_attributes, insert_attribute, bytes_less,
  marshaled_for_signing,
}
use git_kmssign.Timestamp.{Asn1Time}
use git_kmssign.Cms.Options.{Pool, X509, any_usage, zero_time, CertChains}
use git_kmssign.Cms.Timestamps.{has_timestamp}
use git_kmssign.Cms.Verify.{
  signed_message_of, signed_message, verify_signer, verify_signers, verify_with, verify_attached,
  verify,
}

-- The leaf issued the signature, and issues the timestamps, too.
abbrev pub x509_toy : X509
x509_toy = record {
  parse_certificate = λ b. some leaf;
  check_signature = λ cert algo message signature. bytes_eq signature (77 ∷ length message ∷ []);
  verify = λ cert opts. some ((cert ∷ []) ∷ []);
}

abbrev pub signed : SignedData
signed =
    or_else signed_data (add_signer_info toy toy_crypto (issued_leaf ∷ []) toy_signer attached_data)

abbrev pub chains_of : List CertChains
chains_of = ((leaf ∷ []) ∷ []) ∷ []

-- What is parsed is that message.
abbrev pub asn1_signed : Asn1
asn1_signed = record toy {
  unmarshal_content_info =
      λ b. some (record { content_type = content_type_signed_data; content = no_value }, []);
  unmarshal_signed_data = λ b. some (signed, []);
}

abbrev pub time_none : Asn1Time
time_none = record {
  marshal_request = λ req. none;
  unmarshal_response = λ b. none;
  unmarshal_info = λ b. none;
  unmarshal_text = λ b. none;
}

pub signed_parsed : parse_signed_data asn1_signed (0x30 ∷ 0 ∷ []) ≡ ok signed
unfolding parse_signed_data parse_content_info signed_data_content ber2der read_object
    read_sub_objects read_tag read_length encode encode_all encode_length
signed_parsed = refl

pub signed_verified :
    (roots : Pool)
    → verify asn1_signed time_none toy_crypto x509_toy 0
        (record {
          roots = some roots;
          intermediates = none;
          key_usages = any_usage ∷ [];
          current_time = zero_time;
        })
        signed
      ≡ ok (chains_of, some (leaf ∷ []))
unfolding verify verify_attached verify_with verify_signers verify_signer signed_message
    signed_message_of has_timestamp marshaled_for_verification as_set decode_elements decode_any_set
    get_values only_value get_only_attribute_value_bytes x509_certificates parse_all
    get_content_type_attribute get_message_digest_attribute find_certificate find_certificate_by
    issuer_and_serial_number_sid first_certificate is_issued eq_ℤ signer_hash
    x509_signature_algorithm add_signer_info add_chain add_certificate is_added
    new_issuer_and_serial_number unsigned_signer_info look_up
    x509_public_key_and_digest_algorithm_to_signature_algorithm digest_algorithm_for_public_key
    sign_signer_info e_content_value e_content_value_of octets_value signed_attributes new_attribute
    encode_any_set encode_elements sort_attributes insert_attribute bytes_less marshaled_for_signing
    add_digest_algorithm has_digest_algorithm
signed_verified roots = refl
