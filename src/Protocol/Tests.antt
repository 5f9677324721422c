-- ===== src/Protocol/Tests.antt =====
-- The theorems on ietf-cms/protocol/protocol.go at concrete inputs.
use mathlib.Core.List.{Perm}
use git_kmssign.Base.{
  ℕ, ◌≡◌, ◌≢◌, ◌⊎◌, ◌↔◌, refl, true, List, [], ◌∷◌, ◌++◌, Bytes, Any, some, ok, arith,
}
use git_kmssign.Base.Int.{pos}
use git_kmssign.Cert.{Certificate}
use git_kmssign.Cert.Samples.{leaf}
use git_kmssign.Oids.{
  look_up, attribute_content_type, x509_public_key_and_digest_algorithm_to_signature_algorithm,
}
use git_kmssign.Protocol.{RawValue, SignerInfo, SignedData}
use git_kmssign.Protocol.Attributes.{get_only_attribute_value_bytes}
use git_kmssign.Protocol.Attributes.Correct.{Once, get_only_attribute_value_bytes_iff}
use git_kmssign.Protocol.Content.{e_content_value, e_content_value_of, octets_value}
use git_kmssign.Protocol.Content.Correct.{joined, no_more, next_segment, e_content_value-Segments}
use git_kmssign.Protocol.Signed.{
  has_digest_algorithm, is_added, add_certificate, set_certificates, x509_certificates,
}
use git_kmssign.Protocol.Signed.Correct.{
  Distinct, with_certificates, none_stored, one_more_stored, set_certificates-x509_certificates,
}
use git_kmssign.Protocol.Signers.{
  find_certificate, find_certificate_by, issuer_and_serial_number_sid, first_certificate, is_issued,
  eq_ℤ, signer_hash,
}
use git_kmssign.Protocol.Signing.{
  Signer, add_signer_info, add_chain, new_issuer_and_serial_number, unsigned_signer_info,
  digest_algorithm_for_public_key, sign_signer_info, signed_attributes, new_attribute,
  encode_any_set, encode_elements, sort_attributes, insert_attribute, bytes_less,
  marshaled_for_signing,
}
use git_kmssign.Protocol.Samples.{
  toy, stored_leaf, encoded_leaf, content_info, signed_data, signer_info, attribute, toy_signer,
  toy_crypto, attached_data, issued_leaf, or_else,
}
use git_kmssign.Protocol.Signing.Left.{
  add_signer_info_left, LeftBehind, add_signer_info_left-LeftBehind,
}
use git_kmssign.Protocol.Signed.Left.{
  set_certificates_left, AddsFirst, AllOrFewer, set_certificates_left-AddsFirst,
}
use git_kmssign.Protocol.Signing.Sorting.{Sorted, sort_attributes-Sorted}
use git_kmssign.Protocol.Signing.Correct.{IsSigned, HoldsKey, add_signer_info-IsSigned}
use git_kmssign.Protocol.Signers.Correct.{Identifies, find_certificate-Identifies}

get_only_attribute_value_bytes_iff_example :
    (get_only_attribute_value_bytes toy (attribute ∷ []) attribute_content_type ≡ ok stored_leaf)
    ↔ Once toy attribute_content_type (stored_leaf ∷ []) (attribute ∷ [])
get_only_attribute_value_bytes_iff_example =
    get_only_attribute_value_bytes_iff toy (attribute ∷ []) attribute_content_type stored_leaf

find_certificate-Identifies_example : Identifies toy signer_info (leaf ∷ []) leaf (pos 1)
find_certificate-Identifies_example = find_certificate-Identifies toy signer_info (leaf ∷ []) leaf (
    unfold find_certificate find_certificate_by issuer_and_serial_number_sid first_certificate
      is_issued eq_ℤ in
    refl)

set_certificates-x509_certificates_example :
    (set_certificates toy (encoded_leaf ∷ []) signed_data
      ≡ ok (with_certificates signed_data (stored_leaf ∷ [])))
    × (x509_certificates (λ b. some encoded_leaf) (with_certificates signed_data (stored_leaf ∷ []))
        ≡ ok (encoded_leaf ∷ []))
set_certificates-x509_certificates_example =
    set_certificates-x509_certificates toy (λ b. some encoded_leaf) (encoded_leaf ∷ [])
      (stored_leaf ∷ []) signed_data (one_more_stored refl refl refl refl none_stored)
      (unfold is_added in (refl, tt))

-- A constructed octet string with the segments 1, 2 and 3.
abbrev segmented : RawValue
segmented = record {
  tag_class = 0;
  tag = 4;
  is_compound = true;
  bytes = 0 ∷ 4 ∷ 0 ∷ 2 ∷ 1 ∷ 2 ∷ 0 ∷ 4 ∷ 0 ∷ 1 ∷ 3 ∷ [];
  full_bytes = [];
}

abbrev segmented_content : RawValue
segmented_content = record {
  tag_class = 2;
  tag = 0;
  is_compound = true;
  bytes = 0 ∷ 4 ∷ 1 ∷ 11 ∷ segmented.bytes;
  full_bytes = [];
}

e_content_value-Segments_example :
    e_content_value toy (record content_info { e_content = some segmented_content })
    ≡ ok (joined toy ((1 ∷ 2 ∷ []) ∷ (3 ∷ []) ∷ []))
e_content_value-Segments_example =
    e_content_value-Segments toy (record content_info { e_content = some segmented_content })
      segmented_content (record segmented { full_bytes = segmented_content.bytes })
      ((1 ∷ 2 ∷ []) ∷ (3 ∷ []) ∷ []) refl refl refl refl refl
      (next_segment refl (omega arith) refl refl refl
        (next_segment refl (omega arith) refl refl refl no_more))

add_signer_info-run :
    add_signer_info toy toy_crypto (issued_leaf ∷ []) toy_signer attached_data
    ≡ ok (
        or_else signed_data
          (add_signer_info toy toy_crypto (issued_leaf ∷ []) toy_signer attached_data))
unfolding add_signer_info add_chain add_certificate is_added new_issuer_and_serial_number
    unsigned_signer_info look_up x509_public_key_and_digest_algorithm_to_signature_algorithm
    digest_algorithm_for_public_key sign_signer_info e_content_value e_content_value_of octets_value
    signer_hash signed_attributes new_attribute encode_any_set encode_elements sort_attributes
    insert_attribute bytes_less marshaled_for_signing
add_signer_info-run = refl

abbrev with_signer : SignedData
with_signer =
    or_else signed_data (add_signer_info toy toy_crypto (issued_leaf ∷ []) toy_signer attached_data)

add_signer_info-IsSigned_example :
    (si : SignerInfo) × (with_signer.signer_infos ≡ [] ++ (si ∷ []))
    × IsSigned toy toy_crypto toy_signer attached_data.encap_content_info si
    × (with_signer.encap_content_info ≡ attached_data.encap_content_info)
    × Distinct with_signer.digest_algorithms
    × (has_digest_algorithm with_signer.digest_algorithms si.digest_algorithm ≡ true)
    × ((key : Bytes) × (some (2 ∷ []) ≡ some key)
        × Any (HoldsKey toy toy_crypto key) (issued_leaf ∷ []))
add_signer_info-IsSigned_example =
    add_signer_info-IsSigned toy toy_crypto (issued_leaf ∷ []) toy_signer attached_data with_signer
      (unfold has_digest_algorithm in (refl, tt)) add_signer_info-run

-- A signer whose key no certificate of the chain has.
abbrev other_signer : Signer
other_signer = record toy_signer { public_key = some (9 ∷ []) }

add_signer_info_left-LeftBehind_example :
    (add_signer_info toy toy_crypto (issued_leaf ∷ []) other_signer attached_data
      ≡ ok (add_signer_info_left toy toy_crypto (issued_leaf ∷ []) other_signer attached_data))
    ⊎ (((sd' : SignedData)
          → add_signer_info toy toy_crypto (issued_leaf ∷ []) other_signer attached_data ≢ ok sd')
        × LeftBehind toy toy_crypto
            (issued_leaf ∷ [])
            other_signer
            attached_data
            (add_signer_info_left toy toy_crypto (issued_leaf ∷ []) other_signer attached_data))
add_signer_info_left-LeftBehind_example =
    add_signer_info_left-LeftBehind toy toy_crypto (issued_leaf ∷ []) other_signer attached_data

sort_attributes-Sorted_example :
    Sorted (sort_attributes (attribute ∷ attribute ∷ []))
    × Perm (attribute ∷ attribute ∷ []) (sort_attributes (attribute ∷ attribute ∷ []))
sort_attributes-Sorted_example = sort_attributes-Sorted (attribute ∷ attribute ∷ [])

-- The second certificate cannot be read.
abbrev two_certs : List Certificate
two_certs = encoded_leaf ∷ leaf ∷ []

set_certificates_left-AddsFirst_example :
    (n : ℕ) × AddsFirst toy n two_certs
      (with_certificates attached_data [])
      (set_certificates_left toy two_certs attached_data)
    × AllOrFewer toy two_certs
        (set_certificates_left toy two_certs attached_data)
        n
        (set_certificates toy two_certs attached_data)
set_certificates_left-AddsFirst_example =
    set_certificates_left-AddsFirst toy two_certs attached_data
