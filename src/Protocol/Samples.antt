-- ===== src/Protocol/Samples.antt =====
-- Messages for the runs of other modules, over a small encoding in place of encoding/asn1: class, tag, a
-- flag, the length, and the content.
use git_kmssign.Base.{
  ℕ, Bool, true, false, [], ◌∷◌, length, take, drop, ◌==◌, Bytes, Option, none, some, Result, ok,
}
use git_kmssign.Base.Int.{pos}
use git_kmssign.Cert.{Certificate}
use git_kmssign.Cert.Samples.{leaf}
use git_kmssign.Oids.{content_type_data, digest_algorithm_sha256, attribute_content_type}
use git_kmssign.Protocol.{
  RawValue, AlgorithmIdentifier, algorithm_of, Attribute, EncapsulatedContentInfo, SignerInfo,
  SignedData, Asn1,
}
use git_kmssign.Protocol.Signing.{Signer, Crypto}

abbrev pub flag : Bool → ℕ
flag false = 0
flag true = 1

abbrev pub toy_marshal : RawValue → Option Bytes
toy_marshal rv = some (rv.tag_class ∷ rv.tag ∷ flag rv.is_compound ∷ length rv.bytes ∷ rv.bytes)

abbrev pub toy_unmarshal : Bytes → Option (RawValue × Bytes)
toy_unmarshal (c ∷ t ∷ k ∷ n ∷ rest) = some (
  record {
    tag_class = c;
    tag = t;
    is_compound = k == 1;
    bytes = take n rest;
    full_bytes = c ∷ t ∷ k ∷ n ∷ take n rest;
  },
  drop n rest,
)
toy_unmarshal _ = none

abbrev pub nothing_written : Bytes
nothing_written = 0 ∷ 16 ∷ 1 ∷ 0 ∷ []

abbrev pub named_issuer : RawValue
named_issuer = record {
  tag_class = 0;
  tag = 16;
  is_compound = true;
  bytes = [];
  full_bytes = 7 ∷ [];
}

abbrev pub toy : Asn1
toy = record {
  unmarshal_raw = toy_unmarshal;
  marshal_raw = toy_marshal;
  unmarshal_oid = λ b. some (drop 4 b, []);
  marshal_oid = λ oid. some (0 ∷ 6 ∷ 0 ∷ length oid ∷ oid);
  marshal_octets = λ b. some (0 ∷ 4 ∷ 0 ∷ length b ∷ b);
  unmarshal_time = λ b. some (pos 0, []);
  marshal_time = λ t. some (0 ∷ 23 ∷ 0 ∷ 0 ∷ []);
  unmarshal_issuer_and_serial =
      λ b. some (record { issuer = named_issuer; serial_number = pos 2 }, []);
  marshal_issuer_and_serial = λ isn. some nothing_written;
  marshal_set = λ attrs. some (0 ∷ 16 ∷ 1 ∷ 1 ∷ 0x31 ∷ []);
  marshal_sequence = λ attrs. some (0 ∷ 16 ∷ 1 ∷ 1 ∷ 0x30 ∷ []);
  unmarshal_content_info = λ b. none;
  marshal_content_info = λ ci. none;
  unmarshal_signed_data = λ b. none;
  marshal_signed_data = λ sd. none;
}

-- The leaf, encoded.
abbrev pub stored_leaf : RawValue
stored_leaf = record {
  tag_class = 0;
  tag = 16;
  is_compound = true;
  bytes = 9 ∷ [];
  full_bytes = 0 ∷ 16 ∷ 1 ∷ 1 ∷ 9 ∷ [];
}

abbrev pub encoded_leaf : Certificate
encoded_leaf = record leaf { raw = 0 ∷ 16 ∷ 1 ∷ 1 ∷ 9 ∷ [] }

abbrev pub content_info : EncapsulatedContentInfo
content_info = record { e_content_type = content_type_data; e_content = none }

abbrev pub sha256_id : AlgorithmIdentifier
sha256_id = algorithm_of digest_algorithm_sha256

abbrev pub signed_data : SignedData
signed_data = record {
  version = pos 1;
  digest_algorithms = sha256_id ∷ [];
  encap_content_info = content_info;
  certificates = none;
  crls = [];
  signer_infos = [];
}

abbrev pub signer_info : SignerInfo
signer_info = record {
  version = pos 1;
  sid = named_issuer;
  digest_algorithm = sha256_id;
  signed_attrs = none;
  signature_algorithm = sha256_id;
  signature = [];
  unsigned_attrs = [];
}

abbrev pub attribute : Attribute
attribute = record {
  kind = attribute_content_type;
  raw_value = record {
    tag_class = 0;
    tag = 17;
    is_compound = true;
    bytes = 0 ∷ 16 ∷ 1 ∷ 1 ∷ 9 ∷ [];
    full_bytes = [];
  };
}

-- The key of the leaf, and a hash that only keeps the length.
abbrev pub toy_signer : Signer
toy_signer = record { public_key = some (2 ∷ []); sign = λ digest hash. some (77 ∷ digest) }

abbrev pub toy_crypto : Crypto
toy_crypto = record {
  digest = λ hash b. length b ∷ [];
  available = λ hash. true;
  certificate_key = λ c. some c.public_key;
  now = pos 0;
}

-- Signed data that holds the content 5; the leaf's issuer is encoded, too.
abbrev pub attached_data : SignedData
attached_data = record signed_data {
  encap_content_info = record content_info {
    e_content = some (record {
      tag_class = 2;
      tag = 0;
      is_compound = true;
      bytes = 0 ∷ 4 ∷ 0 ∷ 1 ∷ 5 ∷ [];
      full_bytes = [];
    });
  };
}

abbrev pub issued_leaf : Certificate
issued_leaf = record encoded_leaf { raw_issuer = nothing_written }

-- The value of a run that succeeded.
abbrev pub or_else : {A : Type 0} → A → Result A → A
or_else a (ok b) = b
or_else a _ = a
