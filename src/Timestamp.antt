-- ===== src/Timestamp.antt =====
-- ietf-cms/timestamp/timestamp.go: the messages of RFC 3161. encoding/asn1, the random source and the
-- HTTP client are parameters.
pub mod Imprint
pub mod Interval
pub mod FreeText
pub mod Service
pub mod Correct
mod Tests
use git_kmssign.Base.{ℕ, Bool, List, Option, Bytes}
use git_kmssign.Base.Int.{ℤ}
use git_kmssign.Base.Text.{Text}
use git_kmssign.Cert.{Oid, Extension}
use git_kmssign.Protocol.{RawValue, AlgorithmIdentifier, ContentInfo}

pub record MessageImprint : Type 0 where
  pub hash_algorithm : AlgorithmIdentifier
  pub hashed_message : Bytes

-- A nil nonce is `none`.
pub record Request : Type 0 where
  pub version : ℤ
  pub message_imprint : MessageImprint
  pub req_policy : Oid
  pub nonce : Option ℤ
  pub cert_req : Bool
  pub extensions : List Extension

-- The fields are Go ints.
pub record Accuracy : Type 0 where
  pub seconds : ℤ
  pub millis : ℤ
  pub micros : ℤ

-- Times are nanoseconds since the epoch.
pub record Info : Type 0 where
  pub version : ℤ
  pub policy : Oid
  pub message_imprint : MessageImprint
  pub serial_number : ℤ
  pub gen_time : ℤ
  pub accuracy : Accuracy
  pub ordering : Bool
  pub nonce : Option ℤ
  pub tsa : RawValue
  pub extensions : List Extension

abbrev pub PkiFreeText : Type 0
PkiFreeText = List RawValue

-- FailInfo is a bit string: the bits that At returns, as many as BitLength.
pub record PkiStatusInfo : Type 0 where
  pub status : ℤ
  pub status_string : PkiFreeText
  pub fail_info : List Bool

pub record Response : Type 0 where
  pub status : PkiStatusInfo
  pub time_stamp_token : ContentInfo

-- encoding/asn1 at these types; Unmarshal returns what follows the value, too.
pub record Asn1Time : Type 0 where
  pub marshal_request : Request → Option Bytes
  pub unmarshal_response : Bytes → Option (Response × Bytes)
  pub unmarshal_info : Bytes → Option (Info × Bytes)
  pub unmarshal_text : Bytes → Option (Text × Bytes)

-- The answer of a server; the body is `none` if reading it fails.
pub record HttpResponse : Type 0 where
  pub content_type : Text
  pub content_length : ℤ
  pub body : Option Bytes

-- One exchange with the world: rand.Read, http.NewRequest and DefaultHTTPClient.Do.
pub record Exchange : Type 0 where
  pub random : Option Bytes
  pub can_request : Text → Bool
  pub post : Text → Bytes → Option HttpResponse
