-- ===== src/Protocol.antt =====
-- ietf-cms/protocol/protocol.go: the types of CMS. encoding/asn1 is a parameter. A nil slice is [], except
-- where the source tells it from an empty one.
pub mod Attributes
pub mod Content
pub mod Signers
pub mod Signed
pub mod Signing
pub mod Messages
pub mod Ends
pub mod Samples
mod Tests
use git_kmssign.Base.{ℕ, Bool, List, [], Option, Bytes}
use git_kmssign.Base.Int.{ℤ}
use git_kmssign.Cert.{Oid}

-- asn1.RawValue.
pub record RawValue : Type 0 where
  pub tag_class : ℕ
  pub tag : ℕ
  pub is_compound : Bool
  pub bytes : Bytes
  pub full_bytes : Bytes

-- pkix.AlgorithmIdentifier.
pub record AlgorithmIdentifier : Type 0 where
  pub algorithm : Oid
  pub parameters : RawValue

-- The zero value, which stands for parameters that are not there.
abbrev pub no_value : RawValue
no_value = record { tag_class = 0; tag = 0; is_compound = Bool.false; bytes = []; full_bytes = [] }

-- The identifier with no parameters.
abbrev pub algorithm_of : Oid → AlgorithmIdentifier
algorithm_of algorithm = record { algorithm = algorithm; parameters = no_value }

pub record Attribute : Type 0 where
  pub kind : Oid
  pub raw_value : RawValue

pub record IssuerAndSerialNumber : Type 0 where
  pub issuer : RawValue
  pub serial_number : ℤ

-- EContent.Bytes is nil exactly if the field is missing, which is `none` here.
pub record EncapsulatedContentInfo : Type 0 where
  pub e_content_type : Oid
  pub e_content : Option RawValue

pub record ContentInfo : Type 0 where
  pub content_type : Oid
  pub content : RawValue

pub record SignerInfo : Type 0 where
  pub version : ℤ
  pub sid : RawValue
  pub digest_algorithm : AlgorithmIdentifier
  -- Nil is told from an empty list.
  pub signed_attrs : Option (List Attribute)
  pub signature_algorithm : AlgorithmIdentifier
  pub signature : Bytes
  pub unsigned_attrs : List Attribute

-- Certificates are `none` where the field is missing.
pub record SignedData : Type 0 where
  pub version : ℤ
  pub digest_algorithms : List AlgorithmIdentifier
  pub encap_content_info : EncapsulatedContentInfo
  pub certificates : Option (List RawValue)
  pub crls : List RawValue
  pub signer_infos : List SignerInfo

-- encoding/asn1: Unmarshal and Marshal at the types that the source uses. Unmarshal returns what
-- follows the value, too; `none` is an error.
pub record Asn1 : Type 0 where
  pub unmarshal_raw : Bytes → Option (RawValue × Bytes)
  pub marshal_raw : RawValue → Option Bytes
  pub unmarshal_oid : Bytes → Option (Oid × Bytes)
  pub marshal_oid : Oid → Option Bytes
  pub marshal_octets : Bytes → Option Bytes
  -- Times are seconds since the epoch.
  pub unmarshal_time : Bytes → Option (ℤ × Bytes)
  pub marshal_time : ℤ → Option Bytes
  pub unmarshal_issuer_and_serial : Bytes → Option (IssuerAndSerialNumber × Bytes)
  pub marshal_issuer_and_serial : IssuerAndSerialNumber → Option Bytes
  -- The struct around Attributes, as a SET and as a SEQUENCE.
  pub marshal_set : List Attribute → Option Bytes
  pub marshal_sequence : List Attribute → Option Bytes
  pub unmarshal_content_info : Bytes → Option (ContentInfo × Bytes)
  pub marshal_content_info : ContentInfo → Option Bytes
  pub unmarshal_signed_data : Bytes → Option (SignedData × Bytes)
  pub marshal_signed_data : SignedData → Option Bytes
