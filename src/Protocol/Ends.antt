-- ===== src/Protocol/Ends.antt =====
-- The loops of ietf-cms/protocol end.
use git_kmssign.Base.{
  ℕ, zero, suc, ◌<◌, ◌≤◌, ◌≡◌, List, [], ◌∷◌, Bytes, length, Bool, Option, none, some, or_err,
  asn1_failed, or_err-eq-ok, arith, bad_tag_or_class,
}
use git_kmssign.Base.Int.{ℤ, pos, negsuc}
use git_kmssign.Base.Ends.{
  Ends, ok_ends, err_ends, ends_rules, Ends-bind, Ends-bind_value, Ends-Ensures, Ends-or_err,
  Ends-fail_if, Ends-if,
}
use git_kmssign.Ber.Total.{ber2der-Ensures}
use git_kmssign.Cert.{Oid, Hash, Certificate}
use git_kmssign.Protocol.{
  RawValue, Attribute, EncapsulatedContentInfo, SignerInfo, SignedData, Asn1,
}
use git_kmssign.Protocol.Attributes.{
  AnySet, decode_elements, decode_any_set, get_values, only_value, get_only_attribute_value_bytes,
}
use git_kmssign.Protocol.Content.{
  append_segment, join_segments, octets_value, e_content_value_of, e_content_value,
}
use git_kmssign.Protocol.Messages.{
  as_set, parse_content_info, signed_data_content, parse_signed_data, marshaled_for_verification,
}
use git_kmssign.Protocol.Signed.{parse_all, x509_certificates, or_nil}
use git_kmssign.Protocol.Signers.{
  whole, signer_hash, get_content_type_attribute, get_message_digest_attribute, find_certificate,
  find_certificate_by, issuer_and_serial_number_sid, subject_key_identifier_sid,
}
use git_kmssign.Protocol.Signing.{encode_elements, encode_any_set, new_attribute}

pub Ends-whole : {A : Type 0} (o : Option (A × Bytes)) → Ends (whole o)
Ends-whole none = err_ends
Ends-whole (some (a, [])) = ok_ends
Ends-whole (some (a, _ ∷ _)) = err_ends

-- asn1.Unmarshal reads at least one byte of what it succeeds on.
abbrev pub ReadsBytes : Asn1 → Type 0
ReadsBytes asn1 =
    (der : Bytes) (rv : RawValue) (rest : Bytes)
    → asn1.unmarshal_raw der ≡ some (rv, rest)
    → length rest < length der

module _ (asn1 : Asn1) where
  only_value-Ends : (vals : List AnySet) → Ends (only_value asn1 vals)
  unfolding only_value
  only_value-Ends [] = err_ends
  only_value-Ends ([] ∷ []) = err_ends
  only_value-Ends ((rv ∷ []) ∷ []) = ok_ends
  only_value-Ends ((rv ∷ _ ∷ _) ∷ []) = err_ends
  only_value-Ends ([] ∷ _ ∷ _) = err_ends
  only_value-Ends ((_ ∷ []) ∷ _ ∷ _) = err_ends
  only_value-Ends ((_ ∷ _ ∷ _) ∷ _ ∷ _) = err_ends

  pub parse_signed_data-Ends : (ber : Bytes) → Ends (parse_signed_data asn1 ber)
  unfolding parse_signed_data parse_content_info signed_data_content
  parse_signed_data-Ends ber =
      let transcoded = Ends-Ensures (ber2der-Ensures ber) in
      search (ends_rules, transcoded, Ends-whole)

  as_set-Ends : (raw : Bytes) → Ends (as_set raw)
  unfolding as_set
  as_set-Ends [] = search ends_rules
  as_set-Ends (b ∷ raw) = search ends_rules

  pub marshaled_for_verification-Ends :
      (attrs : List Attribute) → Ends (marshaled_for_verification asn1 attrs)
  unfolding marshaled_for_verification
  marshaled_for_verification-Ends attrs = search (ends_rules, as_set-Ends)

  encode_elements-Ends : (elements : AnySet) → Ends (encode_elements asn1 elements)
  unfolding encode_elements
  encode_elements-Ends [] = ok_ends
  encode_elements-Ends (rv ∷ elements) = search (ends_rules, encode_elements-Ends elements)

  encode_any_set-Ends : (elements : AnySet) → Ends (encode_any_set asn1 elements)
  unfolding encode_any_set
  encode_any_set-Ends elements = search (ends_rules, encode_elements-Ends)

  pub new_attribute-Ends :
      (kind : Oid) (value : Option Bytes) → Ends (new_attribute asn1 kind value)
  unfolding new_attribute
  new_attribute-Ends kind value = search (ends_rules, encode_any_set-Ends) depth 9

  find_certificate_by-Ends :
      (version : ℤ) (si : SignerInfo) (certs : List Certificate)
      → Ends (find_certificate_by asn1 version si certs)
  unfolding find_certificate_by issuer_and_serial_number_sid subject_key_identifier_sid
  find_certificate_by-Ends (pos zero) si certs = err_ends
  find_certificate_by-Ends (pos (suc zero)) si certs = search (ends_rules, Ends-whole) depth 9
  find_certificate_by-Ends (pos (suc (suc zero))) si certs = err_ends
  find_certificate_by-Ends (pos (suc (suc (suc zero)))) si certs = search ends_rules depth 9
  find_certificate_by-Ends (pos (suc (suc (suc (suc n))))) si certs = err_ends
  find_certificate_by-Ends (negsuc n) si certs = err_ends

  pub find_certificate-Ends :
      (si : SignerInfo) (certs : List Certificate) → Ends (find_certificate asn1 si certs)
  unfolding find_certificate
  find_certificate-Ends si certs = find_certificate_by-Ends si.version si certs

  module _ (reads : ReadsBytes asn1) where
    decode_elements-Ends :
        (f : ℕ) (der : Bytes) → length der ≤ f → Ends (decode_elements asn1 f der)
    unfolding decode_elements
    decode_elements-Ends f [] h = ok_ends
    decode_elements-Ends zero (b ∷ der) h = absurd (omega arith)
    decode_elements-Ends (suc f) (b ∷ der) h =
        Ends-bind_value (or_err (asn1.unmarshal_raw (b ∷ der)) asn1_failed) (Ends-or_err _ _)
          λ (rv, rest) e.
            let shorter = reads (b ∷ der) rv rest (or_err-eq-ok _ asn1_failed e) in
            let ends = decode_elements-Ends f rest (omega arith) in search ends_rules

    pub get_values-Ends : (attrs : List Attribute) (oid : Oid) → Ends (get_values asn1 attrs oid)
    unfolding get_values decode_any_set
    get_values-Ends [] oid = ok_ends
    get_values-Ends (attr ∷ attrs) oid =
        let elements =
          decode_elements-Ends (length attr.raw_value.bytes) attr.raw_value.bytes (omega arith) in
        let others = get_values-Ends attrs oid in search ends_rules

    pub get_only_attribute_value_bytes-Ends :
        (attrs : List Attribute) (oid : Oid) → Ends (get_only_attribute_value_bytes asn1 attrs oid)
    unfolding get_only_attribute_value_bytes
    get_only_attribute_value_bytes-Ends attrs oid =
        search (ends_rules, get_values-Ends attrs oid, only_value-Ends)

    join_segments-Ends :
        (f : ℕ) (der : Bytes) (value : Option Bytes)
        → length der ≤ f
        → Ends (join_segments asn1 f der value)
    unfolding join_segments
    join_segments-Ends f [] value h = ok_ends
    join_segments-Ends zero (b ∷ der) value h = absurd (omega arith)
    join_segments-Ends (suc f) (b ∷ der) value h =
        Ends-bind_value (or_err (asn1.unmarshal_raw (b ∷ der)) asn1_failed) (Ends-or_err _ _)
          λ (rv, rest) e.
            let shorter = reads (b ∷ der) rv rest (or_err-eq-ok _ asn1_failed e) in
            Ends-bind (Ends-fail_if _ bad_tag_or_class)
              λ _. join_segments-Ends f rest (append_segment value rv.bytes) (omega arith)

    octets_value-Ends : (octets : RawValue) → Ends (octets_value asn1 octets)
    unfolding octets_value
    octets_value-Ends octets =
        Ends-if octets.is_compound
          (join_segments-Ends (length octets.bytes) octets.bytes none (omega arith)) ok_ends

    e_content_value_of-Ends : (content : Option RawValue) → Ends (e_content_value_of asn1 content)
    unfolding e_content_value_of
    e_content_value_of-Ends none = ok_ends
    e_content_value_of-Ends (some content) =
        search (ends_rules, octets_value-Ends, Ends-whole) depth 9

    pub e_content_value-Ends : (eci : EncapsulatedContentInfo) → Ends (e_content_value asn1 eci)
    unfolding e_content_value
    e_content_value-Ends eci = e_content_value_of-Ends eci.e_content

    pub get_content_type_attribute-Ends :
        (si : SignerInfo) → Ends (get_content_type_attribute asn1 si)
    unfolding get_content_type_attribute
    get_content_type_attribute-Ends si =
        search (ends_rules, get_only_attribute_value_bytes-Ends, Ends-whole)

    pub get_message_digest_attribute-Ends :
        (si : SignerInfo) → Ends (get_message_digest_attribute asn1 si)
    unfolding get_message_digest_attribute
    get_message_digest_attribute-Ends si = search (ends_rules, get_only_attribute_value_bytes-Ends)

pub signer_hash-Ends : (available : Hash → Bool) (si : SignerInfo) → Ends (signer_hash available si)
unfolding signer_hash
signer_hash-Ends available si = search ends_rules

parse_all-Ends :
    (parse : Bytes → Option Certificate) (raws : List RawValue) → Ends (parse_all parse raws)
unfolding parse_all
parse_all-Ends parse [] = ok_ends
parse_all-Ends parse (raw ∷ raws) =
    let others = parse_all-Ends parse raws in search ends_rules depth 9

pub x509_certificates-Ends :
    (parse : Bytes → Option Certificate) (sd : SignedData) → Ends (x509_certificates parse sd)
unfolding x509_certificates
x509_certificates-Ends parse sd = parse_all-Ends parse (or_nil sd.certificates)
