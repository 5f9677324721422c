-- ===== src/Cms/Tests.antt =====
-- The theorems on ietf-cms/verify.go, ietf-cms/timestamp.go and ietf-cms/sign.go at concrete inputs: a
-- message with one signature, and one timestamp of that signature, over a small encoding.
use git_kmssign.Base.{
  ℕ, ◌≡◌, ◌≢◌, refl, sym, true, false, List, [], ◌∷◌, length, drop, Bytes, Option, none, some,
  Result, ok, stuck, arith, ap, subst, length-drop, ◌≤◌, >>=-eq-ok, ok-injective,
}
use git_kmssign.Base.Int.{pos, ◌+ℤ◌, wrap64, scale, negate}
use git_kmssign.Base.Text.{codes}
use git_kmssign.Cert.Samples.{leaf}
use git_kmssign.Oids.{
  look_up, content_type_signed_data, content_type_tst_info, digest_algorithm_sha256,
  attribute_time_stamp_token, x509_public_key_and_digest_algorithm_to_signature_algorithm,
  crypto_hash_to_digest_algorithm,
}
use git_kmssign.Protocol.{algorithm_of, no_value, ContentInfo, SignedData, Asn1}
use git_kmssign.Protocol.Samples.{
  toy, toy_signer, toy_crypto, attached_data, issued_leaf, or_else, attribute, signer_info,
  signed_data,
}
use git_kmssign.Ber.{
  ber2der, read_object, read_sub_objects, read_tag, read_length, encode, encode_all, encode_length,
}
use git_kmssign.Protocol.Attributes.{
  decode_elements, decode_any_set, get_values, only_value, get_only_attribute_value_bytes,
}
use git_kmssign.Protocol.Content.{e_content_value, e_content_value_of, octets_value}
use git_kmssign.Protocol.Messages.{
  parse_content_info, signed_data_content, marshaled_for_verification, as_set, parse_signed_data,
}
use git_kmssign.Protocol.Signed.{
  add_digest_algorithm, has_digest_algorithm, is_detached, detached, add_certificate, is_added,
  x509_certificates, parse_all,
}
use git_kmssign.Protocol.Signers.{
  get_content_type_attribute, get_message_digest_attribute, find_certificate, find_certificate_by,
  issuer_and_serial_number_sid, first_certificate, is_issued, eq_ℤ, signer_hash,
  x509_signature_algorithm,
}
use git_kmssign.Protocol.Signing.{
  add_signer_info, add_chain, new_issuer_and_serial_number, unsigned_signer_info,
  digest_algorithm_for_public_key, sign_signer_info, signed_attributes, new_attribute,
  encode_any_set, encode_elements, sort_attributes, insert_attribute, bytes_less,
  marshaled_for_signing,
}
use git_kmssign.Timestamp.FreeText.{is_error}
use git_kmssign.Timestamp.Imprint.{new_message_imprint, imprint_hash, imprint_equal}
use git_kmssign.Timestamp.Interval.{duration, gen_time_max, gen_time_min, before, after}
use git_kmssign.Timestamp.Service.{
  generate_nonce, big_endian, same_nonce, request_matches, make_buffer, parse_response, request_do,
  parse_info, response_info,
}
use git_kmssign.Timestamp.{Info, Asn1Time, Exchange}
use git_kmssign.Cms.Options.{Pool, VerifyOptions, zero_time, CertChains}
use git_kmssign.Cms.Samples.{x509_toy, signed, chains_of}
use git_kmssign.Cms.Timestamps.{
  append_attributes, ts_request, fetch_ts, fetch_all, add_timestamps, has_timestamp, get_timestamp,
}
use git_kmssign.Protocol.Ends.{ReadsBytes}
use git_kmssign.Cms.Timestamps.Correct.{AddsTimestamps, add_timestamps-Adds}
use git_kmssign.Cms.Verify.Correct.{Accepted}
use git_kmssign.Cms.Verify.Accepts.{verify_iff, verify_detached_iff}
use git_kmssign.Cms.Verify.Ends.{Tokens, NestsTo, verify-ends}
use git_kmssign.Cms.Verify.{
  signed_message_of, signed_message, with_timestamp, verify_signer, verify_signers, verify_with,
  verify_attached, verify_token, verify, verify_detached,
}

abbrev options : VerifyOptions
options = record { roots = none; intermediates = none; key_usages = []; current_time = zero_time }

-- The content of a token: octets 9, of the type TSTInfo.
abbrev token_content : SignedData
token_content = record attached_data {
  encap_content_info = record attached_data.encap_content_info {
    e_content_type = content_type_tst_info;
  };
}

abbrev token : SignedData
token =
    or_else signed_data (add_signer_info toy toy_crypto (issued_leaf ∷ []) toy_signer token_content)

-- What the token says: the imprint of a signature of two bytes, at ten seconds.
abbrev stamped : Info
stamped = record {
  version = pos 1;
  policy = [];
  message_imprint = record {
    hash_algorithm = algorithm_of digest_algorithm_sha256;
    hashed_message = 2 ∷ [];
  };
  serial_number = pos 7;
  gen_time = pos 10000000000;
  accuracy = record { seconds = pos 1; millis = pos 0; micros = pos 0 };
  ordering = false;
  nonce = some (pos 258);
  tsa = no_value;
  extensions = [];
}

abbrev token_info : ContentInfo
token_info = record {
  content_type = content_type_signed_data;
  content = record no_value { bytes = 1 ∷ [] };
}

abbrev asn1_toy : Asn1
asn1_toy = record toy {
  unmarshal_content_info = λ b. some (token_info, []);
  marshal_content_info = λ ci. some (0x30 ∷ 0 ∷ 0 ∷ 0 ∷ []);
  unmarshal_signed_data = λ b. some (token, []);
}

abbrev time_toy : Asn1Time
time_toy = record {
  marshal_request = λ req. some (1 ∷ []);
  unmarshal_response = λ b. some (
    record {
      status = record { status = pos 0; status_string = []; fail_info = [] };
      time_stamp_token = token_info;
    },
    [],
  );
  unmarshal_info = λ b. some (stamped, []);
  unmarshal_text = λ b. none;
}

-- The service answers with the token, in an empty SEQUENCE.
abbrev service : Exchange
service = record {
  random = some (1 ∷ 2 ∷ []);
  can_request = λ url. true;
  post = λ url request. some (record {
    content_type = codes "application/timestamp-reply";
    content_length = pos 2;
    body = some (0x30 ∷ 0 ∷ []);
  });
}

abbrev timestamped : SignedData
timestamped = (add_timestamps asn1_toy time_toy toy_crypto (λ i. service) [] signed).1

abbrev verdict : Result (List CertChains × Option Pool)
verdict = verify asn1_toy time_toy toy_crypto x509_toy 1 options timestamped

verify-runs :
    (verdict ≡ ok (chains_of, some (leaf ∷ leaf ∷ [])))
    × (verify_detached asn1_toy time_toy toy_crypto x509_toy 0 (5 ∷ []) options (detached signed)
        ≡ ok (chains_of, some (leaf ∷ [])))
unfolding verify verify_detached is_detached detached verify_token verify_attached verify_with
    verify_signers verify_signer with_timestamp signed_message signed_message_of has_timestamp
    get_timestamp add_timestamps fetch_all fetch_ts append_attributes ts_request generate_nonce
    big_endian same_nonce request_matches make_buffer parse_response request_do parse_info
    response_info is_error duration gen_time_max gen_time_min before after new_message_imprint
    imprint_hash imprint_equal parse_content_info signed_data_content marshaled_for_verification
    as_set parse_signed_data decode_elements decode_any_set get_values only_value
    get_only_attribute_value_bytes x509_certificates parse_all get_content_type_attribute
    get_message_digest_attribute find_certificate find_certificate_by issuer_and_serial_number_sid
    first_certificate is_issued eq_ℤ signer_hash x509_signature_algorithm add_signer_info add_chain
    add_certificate is_added new_issuer_and_serial_number unsigned_signer_info look_up
    x509_public_key_and_digest_algorithm_to_signature_algorithm crypto_hash_to_digest_algorithm
    digest_algorithm_for_public_key sign_signer_info e_content_value e_content_value_of octets_value
    signed_attributes new_attribute encode_any_set encode_elements sort_attributes insert_attribute
    bytes_less marshaled_for_signing ber2der read_object read_sub_objects read_tag read_length
    encode encode_all encode_length ◌+ℤ◌ wrap64 scale negate add_digest_algorithm
    has_digest_algorithm
verify-runs = (refl, refl)

verify_iff_example :
    (econtent : Bytes) × (e_content_value asn1_toy timestamped.encap_content_info
      ≡ ok (some econtent))
    × Accepted asn1_toy time_toy toy_crypto x509_toy
        (verify_token asn1_toy time_toy toy_crypto x509_toy 1)
        econtent
        options
        timestamped
        chains_of
        (some (leaf ∷ leaf ∷ []))
verify_iff_example =
    (verify_iff asn1_toy time_toy toy_crypto x509_toy 1 options timestamped chains_of
        (some (leaf ∷ leaf ∷ []))).0
      verify-runs.0

verify_detached_iff_example :
    (is_detached (detached signed) ≡ true)
    × Accepted asn1_toy time_toy toy_crypto x509_toy
        (verify_token asn1_toy time_toy toy_crypto x509_toy 0)
        (5 ∷ [])
        options
        (detached signed)
        chains_of
        (some (leaf ∷ []))
verify_detached_iff_example =
    (verify_detached_iff asn1_toy time_toy toy_crypto x509_toy 0 (5 ∷ []) options (detached signed)
        chains_of (some (leaf ∷ []))).0
      verify-runs.1

-- Octets that are left behind a value are fewer than those in front of it.
drop-shorter : (n : ℕ) (l : Bytes) → length (drop n l) ≤ length l
drop-shorter n l = omega (arith, length-drop n l)

toy-ReadsBytes : ReadsBytes asn1_toy
toy-ReadsBytes (c ∷ t ∷ k ∷ n ∷ l) rv rest h =
    let e : drop n l ≡ rest = cc in let same = ap length e in omega (arith, drop-shorter n l)
toy-ReadsBytes [] rv rest h = cc
toy-ReadsBytes (c ∷ []) rv rest h = cc
toy-ReadsBytes (c ∷ t ∷ []) rv rest h = cc
toy-ReadsBytes (c ∷ t ∷ k ∷ []) rv rest h = cc

-- A message whose one signer has a timestamp, the token of which has no signers.
abbrev asn1_nested : Asn1
asn1_nested = record asn1_toy { unmarshal_signed_data = λ b. some (signed_data, []) }

abbrev nested : SignedData
nested = record signed_data {
  signer_infos =
      record signer_info {
        unsigned_attrs = record attribute { kind = attribute_time_stamp_token } ∷ [];
      }
      ∷ [];
}

parsed-signed_data :
    (ber : Bytes) (tst : SignedData)
    → parse_signed_data asn1_nested ber ≡ ok tst
    → signed_data ≡ tst
unfolding parse_signed_data parse_content_info signed_data_content
parsed-signed_data ber tst h =
    let (ci, e, h₁) = >>=-eq-ok (parse_content_info asn1_nested ber) _ h in
    let (der, _, e₁) = >>=-eq-ok (ber2der ber) _ e in
    let same : token_info ≡ ci = ok-injective e₁ in
    ok-injective (subst (λ ci. signed_data_content asn1_nested ci ≡ ok tst) (sym same) h₁)

verify-ends_example :
    (verify asn1_nested time_toy toy_crypto x509_toy 1 options nested ≢ stuck)
    × (verify_detached asn1_nested time_toy toy_crypto x509_toy 1 (5 ∷ []) options nested ≢ stuck)
verify-ends_example =
    verify-ends asn1_nested time_toy toy_crypto x509_toy toy-ReadsBytes 1 (5 ∷ []) options nested (
      unfold NestsTo Tokens in
      (
        λ tst t.
            subst (NestsTo asn1_nested 0) (parsed-signed_data _ tst t.is_token)
              (unfold NestsTo Tokens in tt),
        tt,
      ))

add_timestamps-Adds_example :
    AddsTimestamps asn1_toy time_toy toy_crypto
      (λ i. service)
      []
      signed
      (add_timestamps asn1_toy time_toy toy_crypto (λ i. service) [] signed).0
      timestamped
add_timestamps-Adds_example =
    add_timestamps-Adds asn1_toy time_toy toy_crypto (λ i. service) [] signed
