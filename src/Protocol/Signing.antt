-- ===== src/Protocol/Signing.antt =====
-- AddSignerInfo of ietf-cms/protocol/protocol.go, and what it calls.
pub mod Sorting
pub mod Attributes
pub mod Correct
pub mod Left
use git_kmssign.Base.{
  ℕ, zero, suc, Bool, true, false, not, ltb, List, [], ◌∷◌, ◌++◌, Bytes, ◌==◌, bytes_eq,
  if◌then◌else◌, Option, none, some, Result, ok, err, ◌>>=◌, ◌>>◌, fail_if, or_err, asn1_failed,
  no_certificate_found, unsupported_key_algorithm, already_detached, public_key_failed,
  signing_failed,
}
use git_kmssign.Base.Int.{ℤ, pos}
use git_kmssign.Cert.{Oid, Hash, Certificate}
use git_kmssign.Oids.{
  look_up, digest_algorithm_sha256, x509_public_key_and_digest_algorithm_to_signature_algorithm,
  attribute_signing_time, attribute_message_digest, attribute_content_type,
}
use git_kmssign.Protocol.{
  RawValue, AlgorithmIdentifier, algorithm_of, Attribute, IssuerAndSerialNumber, SignerInfo,
  SignedData, Asn1,
}
use git_kmssign.Protocol.Attributes.{AnySet, class_universal, tag_set}
use git_kmssign.Protocol.Content.{e_content_value}
use git_kmssign.Protocol.Signed.{add_certificate, add_digest_algorithm}
use git_kmssign.Protocol.Signers.{signer_hash}

-- bytes.Compare(a, b) < 0
unfoldable pub bytes_less : Bytes → Bytes → Bool
bytes_less [] [] = false
bytes_less [] (b ∷ bs) = true
bytes_less (a ∷ xs) [] = false
bytes_less (a ∷ xs) (b ∷ ys) =
    let rest = bytes_less xs ys in if ltb a b then true else if a == b then rest else false

-- sortAttributes: sort.Slice on the encoded values. Insertion is used for the sorting, which the
-- library does not fix; attributes with the same encoding may come in another order there.
unfoldable pub insert_attribute : Attribute → List Attribute → List Attribute
insert_attribute a [] = a ∷ []
insert_attribute a (b ∷ attrs) =
    let rest = insert_attribute a attrs in
    if bytes_less b.raw_value.full_bytes a.raw_value.full_bytes then b ∷ rest else a ∷ b ∷ attrs

unfoldable pub sort_attributes : List Attribute → List Attribute
sort_attributes [] = []
sort_attributes (a ∷ attrs) = insert_attribute a (sort_attributes attrs)

-- crypto.Signer: its public key as x509.MarshalPKIXPublicKey encodes it, and signing a digest.
pub record Signer : Type 0 where
  pub public_key : Option Bytes
  pub sign : Bytes → Hash → Option Bytes

-- crypto, crypto/x509 and the clock: hashing, the hashes that are linked in, the encoded key of a
-- certificate, and the time.
pub record Crypto : Type 0 where
  pub digest : Hash → Bytes → Bytes
  pub available : Hash → Bool
  pub certificate_key : Certificate → Option Bytes
  pub now : ℤ

-- The argument is an encoded key in the one call, never a *ecdsa.PublicKey, so that the switch on the
-- curve is not entered.
unfoldable pub digest_algorithm_for_public_key : Bytes → AlgorithmIdentifier
digest_algorithm_for_public_key _ = algorithm_of digest_algorithm_sha256

module _ (asn1 : Asn1) where
  -- The loop of AnySet.Encode.
  unfoldable pub encode_elements : AnySet → Result Bytes
  encode_elements [] = ok []
  encode_elements (rv ∷ elements) = do
    der ← or_err (asn1.marshal_raw rv) asn1_failed
    rest ← encode_elements elements
    ok (der ++ rest)

  unfoldable pub encode_any_set : AnySet → Result RawValue
  encode_any_set elements = do
    content ← encode_elements elements
    let dst : RawValue = record {
      tag_class = class_universal;
      tag = tag_set;
      is_compound = true;
      bytes = content;
      full_bytes = [];
    }
    full ← or_err (asn1.marshal_raw dst) asn1_failed
    ok (record dst { full_bytes = full })

  -- The value comes encoded, or as the error of asn1.Marshal.
  unfoldable pub new_attribute : Oid → Option Bytes → Result Attribute
  new_attribute kind value = do
    der ← or_err value asn1_failed
    (rv, _) ← or_err (asn1.unmarshal_raw der) asn1_failed
    raw_value ← encode_any_set (rv ∷ [])
    ok (record { kind = kind; raw_value = raw_value })

  unfoldable pub new_issuer_and_serial_number : Certificate → Result RawValue
  new_issuer_and_serial_number cert = do
    (issuer, _) ← or_err (asn1.unmarshal_raw cert.raw_issuer) asn1_failed
    let isn : IssuerAndSerialNumber = record { issuer = issuer; serial_number = cert.serial_number }
    der ← or_err (asn1.marshal_issuer_and_serial isn) asn1_failed
    (rv, _) ← or_err (asn1.unmarshal_raw der) asn1_failed
    ok rv

  unfoldable pub marshaled_for_signing : List Attribute → Result Bytes
  marshaled_for_signing attrs = do
    seq ← or_err (asn1.marshal_set attrs) asn1_failed
    (raw, _) ← or_err (asn1.unmarshal_raw seq) asn1_failed
    ok raw.bytes

  module _ (crypto : Crypto) where
    -- The loop over the chain: the certificates are added, and the last one with the signer's key is
    -- the signer's. (The message that an error leaves is add_chain_left's, in Left.)
    unfoldable pub add_chain :
        Bytes
        → List Certificate
        → SignedData
        → Option Certificate
        → Result (SignedData × Option Certificate)
    add_chain key [] sd cert = ok (sd, cert)
    add_chain key (c ∷ chain) sd cert = do
      sd' ← add_certificate asn1 c sd
      cert_key ← or_err (crypto.certificate_key c) public_key_failed
      add_chain key chain sd' (if bytes_eq key cert_key then some c else cert)

    unfoldable pub signed_attributes : Oid → Bytes → Result (List Attribute)
    signed_attributes content_type md = do
      st_attr ← new_attribute attribute_signing_time (asn1.marshal_time crypto.now)
      md_attr ← new_attribute attribute_message_digest (asn1.marshal_octets md)
      ct_attr ← new_attribute attribute_content_type (asn1.marshal_oid content_type)
      ok (sort_attributes (st_attr ∷ md_attr ∷ ct_attr ∷ []))

    -- The SignerInfo before it is signed.
    unfoldable pub unsigned_signer_info : Certificate → Bytes → Result SignerInfo
    unsigned_signer_info cert key = do
      sid ← new_issuer_and_serial_number cert
      let digest_algorithm = digest_algorithm_for_public_key key
      oid ←
          or_err
            (look_up
              (x509_public_key_and_digest_algorithm_to_signature_algorithm
                cert.public_key_algorithm)
              digest_algorithm.algorithm)
            unsupported_key_algorithm
      ok (record {
        version = pos 1;
        sid = sid;
        digest_algorithm = digest_algorithm;
        signed_attrs = none;
        signature_algorithm = algorithm_of oid;
        signature = [];
        unsigned_attrs = [];
      })

    -- From the message to the signature.
    unfoldable pub sign_signer_info : Signer → SignedData → SignerInfo → Result SignerInfo
    sign_signer_info signer sd si = do
      value ← e_content_value asn1 sd.encap_content_info
      content ← or_err value already_detached
      hash ← signer_hash crypto.available si
      attrs ← signed_attributes sd.encap_content_info.e_content_type (crypto.digest hash content)
      sm ← marshaled_for_signing attrs
      signature ← or_err (signer.sign (crypto.digest hash sm) hash) signing_failed
      ok (record si { signed_attrs = some attrs; signature = signature })

    unfoldable pub add_signer_info : List Certificate → Signer → SignedData → Result SignedData
    add_signer_info chain signer sd = do
      key ← or_err signer.public_key public_key_failed
      (sd', found) ← add_chain key chain sd none
      cert ← or_err found no_certificate_found
      si ← unsigned_signer_info cert key
      si' ← sign_signer_info signer sd' si
      let sd'' = add_digest_algorithm si'.digest_algorithm sd'
      ok (record sd'' { signer_infos = sd''.signer_infos ++ (si' ∷ []) })
