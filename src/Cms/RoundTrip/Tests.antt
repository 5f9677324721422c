-- ===== src/Cms/RoundTrip/Tests.antt =====
-- The signing and verifying of ietf-cms at a concrete input, over a small encoding: class, tag, and
-- everything behind them.
use git_kmssign.Base.{
  ℕ, zero, suc, ◌≢◌, ◌≡◌, refl, sym, ap, ◌∙◌, subst, true, [], ◌∷◌, length, ltb, bytes_eq_iff,
  Bytes, Option, none, some, ok,
}
use git_kmssign.Base.Int.{ℤ, pos, negsuc}
use git_kmssign.Cert.{Oid, Certificate}
use git_kmssign.Cert.Samples.{leaf}
use git_kmssign.Oids.{look_up, x509_public_key_and_digest_algorithm_to_signature_algorithm}
use git_kmssign.Protocol.{RawValue, IssuerAndSerialNumber, SignedData, Asn1}
use git_kmssign.Protocol.Samples.{toy, toy_signer, toy_crypto, content_info, signed_data, or_else}
use git_kmssign.Protocol.Content.{e_content_value, e_content_value_of, octets_value}
use git_kmssign.Protocol.Messages.{marshaled_for_verification, as_set}
use git_kmssign.Protocol.Signed.{
  add_digest_algorithm, has_digest_algorithm, add_certificate, is_added, detached,
}
use git_kmssign.Protocol.Signers.{signer_hash}
use git_kmssign.Protocol.Signing.{
  add_signer_info, add_chain, new_issuer_and_serial_number, unsigned_signer_info,
  digest_algorithm_for_public_key, sign_signer_info, signed_attributes, new_attribute,
  encode_any_set, encode_elements, sort_attributes, insert_attribute, bytes_less,
  marshaled_for_signing,
}
use git_kmssign.Cms.Options.{VerifyOptions, X509, any_usage, zero_time}
use git_kmssign.Cms.Samples.{x509_toy, time_none}
use git_kmssign.Cms.RoundTrip.{ReadsBack, FitsContent, IsParsed, ChecksSignatures}
use git_kmssign.Cms.RoundTrip.Correct.{sign_message-verify}
use git_kmssign.Cms.Sign.{sign_message}
use git_kmssign.Cms.Verify.{verify, verify_detached}

-- A value is all of the bytes.
abbrev plain_value : Bytes → Option (RawValue × Bytes)
plain_value (c ∷ t ∷ l) = some (
  record { tag_class = c; tag = t; is_compound = ltb 4 t; bytes = l; full_bytes = c ∷ t ∷ l },
  [],
)
plain_value _ = none

abbrev plain_issuer : ℤ → Bytes → Bytes
plain_issuer (pos n) l = 0 ∷ 16 ∷ 0 ∷ n ∷ l
plain_issuer (negsuc n) l = 0 ∷ 16 ∷ 1 ∷ n ∷ l

abbrev issuer_of : ℤ → Bytes → IssuerAndSerialNumber
issuer_of serial l = record {
  issuer = record { tag_class = 0; tag = 16; is_compound = true; bytes = []; full_bytes = l };
  serial_number = serial;
}

abbrev plain_issuer_value : Bytes → Option (IssuerAndSerialNumber × Bytes)
plain_issuer_value (c ∷ t ∷ zero ∷ n ∷ l) = some (issuer_of (pos n) l, [])
plain_issuer_value (c ∷ t ∷ suc zero ∷ n ∷ l) = some (issuer_of (negsuc n) l, [])
plain_issuer_value _ = none

abbrev plain_oid_value : Bytes → Option (Oid × Bytes)
plain_oid_value (c ∷ t ∷ l) = some (l, [])
plain_oid_value _ = none

abbrev plain : Asn1
plain = record toy {
  unmarshal_raw = plain_value;
  marshal_raw = λ rv. some (rv.tag_class ∷ rv.tag ∷ rv.bytes);
  unmarshal_oid = plain_oid_value;
  marshal_oid = λ oid. some (0 ∷ 6 ∷ oid);
  marshal_octets = λ b. some (0 ∷ 4 ∷ b);
  marshal_time = λ t. some (0 ∷ 23 ∷ []);
  unmarshal_issuer_and_serial = plain_issuer_value;
  marshal_issuer_and_serial = λ isn. some (plain_issuer isn.serial_number isn.issuer.full_bytes);
  marshal_set = λ attrs. some (0 ∷ 17 ∷ 0x31 ∷ length attrs ∷ []);
  marshal_sequence = λ attrs. some (0 ∷ 16 ∷ 0x30 ∷ length attrs ∷ []);
}

from-some : {A : Type 0} {a b : A} → some a ≡ some b → a ≡ b
from-some e = cc

-- What a value was read from.
plain_value-full :
    (c t : ℕ) (l : Bytes) (rv : RawValue) (rest : Bytes)
    → plain_value (c ∷ t ∷ l) ≡ some (rv, rest)
    → record { tag_class = c; tag = t; is_compound = ltb 4 t; bytes = l; full_bytes = c ∷ t ∷ l }
      ≡ rv
plain_value-full c t l rv rest h = ap (λ x. x.0) (from-some h)

plain_issuer-value :
    (serial : ℤ) (l der : Bytes) (rv : RawValue) (rest : Bytes)
    → plain_issuer serial l ≡ der
    → plain_value der ≡ some (rv, rest)
    → (rv.tag_class ≡ 0)
      × (rv.tag ≡ 16)
      × (plain_issuer_value rv.full_bytes ≡ some (issuer_of serial l, []))
plain_issuer-value (pos n) l der rv rest e h =
    subst
      (λ (x : RawValue).
        (x.tag_class ≡ 0)
        × (x.tag ≡ 16)
        × (plain_issuer_value x.full_bytes ≡ some (issuer_of (pos n) l, [])))
      (plain_value-full 0 16 (0 ∷ n ∷ l) rv rest (ap plain_value e ∙ h)) (refl, refl, refl)
plain_issuer-value (negsuc n) l der rv rest e h =
    subst
      (λ (x : RawValue).
        (x.tag_class ≡ 0)
        × (x.tag ≡ 16)
        × (plain_issuer_value x.full_bytes ≡ some (issuer_of (negsuc n) l, [])))
      (plain_value-full 0 16 (1 ∷ n ∷ l) rv rest (ap plain_value e ∙ h)) (refl, refl, refl)

plain-reads_raw :
    (der : Bytes) (rv : RawValue) (rest : Bytes)
    → plain.unmarshal_raw der ≡ some (rv, rest)
    → (full : Bytes) × (plain.marshal_raw rv ≡ some full)
      × (full ≢ [])
      × (plain.unmarshal_raw full ≡ some (rv, []))
plain-reads_raw (c ∷ t ∷ l) rv rest h =
    subst
      (λ rv.
        (full : Bytes) × (plain.marshal_raw rv ≡ some full)
        × (full ≢ [])
        × (plain.unmarshal_raw full ≡ some (rv, [])))
      (plain_value-full c t l rv rest h) (c ∷ t ∷ l, refl, (λ e. cc), refl)
plain-reads_raw [] rv rest h = cc
plain-reads_raw (c ∷ []) rv rest h = cc

plain-reads_oid :
    (oid : Oid) (der : Bytes) (rv : RawValue) (rest : Bytes)
    → plain.marshal_oid oid ≡ some der
    → plain.unmarshal_raw der ≡ some (rv, rest)
    → plain.unmarshal_oid rv.full_bytes ≡ some (oid, [])
plain-reads_oid oid der rv rest m h =
    subst (λ (x : RawValue). plain_oid_value x.full_bytes ≡ some (oid, []))
      (plain_value-full 0 6 oid rv rest (ap plain_value (from-some m) ∙ h)) refl

plain-reads_octets :
    (octets der : Bytes) (rv : RawValue) (rest : Bytes)
    → plain.marshal_octets octets ≡ some der
    → plain.unmarshal_raw der ≡ some (rv, rest)
    → (rv.tag_class ≡ 0) × (rv.tag ≡ 4) × (rv.bytes ≡ octets)
plain-reads_octets octets der rv rest m h =
    subst (λ (x : RawValue). (x.tag_class ≡ 0) × (x.tag ≡ 4) × (x.bytes ≡ octets))
      (plain_value-full 0 4 octets rv rest (ap plain_value (from-some m) ∙ h)) (refl, refl, refl)

plain-ReadsBack : ReadsBack plain
plain-ReadsBack = record {
  raw_lem = plain-reads_raw;
  octets_lem = plain-reads_octets;
  issuer_lem = λ name after isn der rv rest issuer m h.
      let (c, t, r) =
        plain_issuer-value isn.serial_number isn.issuer.full_bytes der rv rest (from-some m) h in
      (issuer_of isn.serial_number isn.issuer.full_bytes, c, t, r, refl, refl);
}

plain-FitsContent : (kind : Oid) (content : Bytes) → FitsContent plain toy_crypto kind content
unfolding marshaled_for_signing marshaled_for_verification as_set
plain-FitsContent kind content = record {
  kind_lem = λ der rv rest m h. plain-reads_oid kind der rv rest m h;
  order_lem = λ attrs message made h. h;
}

-- The leaf, with its encodings.
abbrev plain_leaf : Certificate
plain_leaf = record leaf { raw = 0 ∷ 16 ∷ 9 ∷ []; raw_issuer = 0 ∷ 16 ∷ 7 ∷ [] }

abbrev x509_plain : X509
x509_plain = record x509_toy { parse_certificate = λ b. some plain_leaf }

plain_leaf-IsParsed : IsParsed plain x509_plain plain_leaf
plain_leaf-IsParsed = record {
  parse_lem = λ rv rest h.
      subst
        (λ (x : RawValue).
          (x.tag_class ≡ 0)
          × (x.tag ≡ 16)
          × (x509_plain.parse_certificate x.full_bytes ≡ some plain_leaf))
        (plain_value-full 0 16 (9 ∷ []) rv rest h) (refl, refl, refl);
  raw_issuer_lem = λ rv rest h.
      subst (λ (x : RawValue). x.full_bytes ≡ plain_leaf.raw_issuer)
        (plain_value-full 0 16 (7 ∷ []) rv rest h) refl;
}

plain_leaf-ChecksSignatures : ChecksSignatures toy_crypto x509_plain toy_signer plain_leaf
plain_leaf-ChecksSignatures oid algorithm message signature k chosen known signed =
    (bytes_eq_iff signature (77 ∷ length message ∷ [])).1 (sym (from-some signed))

abbrev plain_data : SignedData
plain_data = record signed_data {
  encap_content_info = record content_info {
    e_content = some (record {
      tag_class = 2;
      tag = 0;
      is_compound = true;
      bytes = 0 ∷ 4 ∷ 5 ∷ [];
      full_bytes = [];
    });
  };
}

abbrev plain_signed : SignedData
plain_signed =
    or_else signed_data (sign_message plain toy_crypto (plain_leaf ∷ []) toy_signer plain_data)

abbrev plain_options : VerifyOptions
plain_options = record {
  roots = some [];
  intermediates = none;
  key_usages = any_usage ∷ [];
  current_time = zero_time;
}

plain_signed-runs :
    sign_message plain toy_crypto (plain_leaf ∷ []) toy_signer plain_data ≡ ok plain_signed
unfolding sign_message add_signer_info add_chain add_certificate is_added
    new_issuer_and_serial_number unsigned_signer_info look_up
    x509_public_key_and_digest_algorithm_to_signature_algorithm digest_algorithm_for_public_key
    sign_signer_info e_content_value e_content_value_of octets_value signed_attributes new_attribute
    encode_any_set encode_elements sort_attributes insert_attribute bytes_less marshaled_for_signing
    add_digest_algorithm has_digest_algorithm signer_hash
plain_signed-runs = refl

plain_data-content : e_content_value plain plain_data.encap_content_info ≡ ok (some (5 ∷ []))
unfolding e_content_value e_content_value_of octets_value
plain_data-content = refl

sign_message-verify_example :
    (verify plain time_none toy_crypto x509_plain 0 plain_options plain_signed
      ≡ ok (((plain_leaf ∷ []) ∷ []) ∷ [], some (plain_leaf ∷ [])))
    × (verify_detached plain time_none toy_crypto x509_plain 0
          (5 ∷ [])
          plain_options
          (detached plain_signed)
        ≡ ok (((plain_leaf ∷ []) ∷ []) ∷ [], some (plain_leaf ∷ [])))
sign_message-verify_example =
    sign_message-verify plain toy_crypto x509_plain toy_signer (plain_leaf ∷ []) time_none 0
      plain_data plain_signed plain_options ((plain_leaf ∷ []) ∷ []) (5 ∷ []) plain-ReadsBack
      (plain-FitsContent plain_data.encap_content_info.e_content_type (5 ∷ []))
      (plain_leaf-IsParsed, tt) (((λ i s. refl), tt), tt) (plain_leaf-ChecksSignatures, tt)
      ((λ k. refl), tt) refl refl plain_data-content plain_signed-runs
