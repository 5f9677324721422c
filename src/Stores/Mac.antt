-- ===== src/Stores/Mac.antt =====
-- certstore/certstore_darwin.go. Security.framework and CoreFoundation are parameters, which change a
-- state of the system. A nil reference is `none`.
pub mod Identity
pub mod Store
pub mod Owned
pub mod Released
pub mod Made
pub mod Correct
pub mod Listed
use git_kmssign.Base.{ℕ, Bool, List, Option, Bytes}
use git_kmssign.Base.Int.{ℤ}
use git_kmssign.Base.Text.{Text}
use git_kmssign.Cert.{Certificate}
use git_kmssign.Stores.System.{Ref}

-- kSecKeyAlgorithm...
pub data KeyAlgorithm : Type 0 where
  ecdsa_x962_sha1 ecdsa_x962_sha256 ecdsa_x962_sha384 ecdsa_x962_sha512 : KeyAlgorithm
  rsa_pkcs1v15_sha1 rsa_pkcs1v15_sha256 rsa_pkcs1v15_sha384 rsa_pkcs1v15_sha512 : KeyAlgorithm

-- The dictionaries that the source makes: of all identities, of one list of items, and with a passphrase.
pub data Query : Type 0 where
  all_identities : Query
  item_list passphrase : Ref → Query

-- Calls of the system, on its state. Those that create, copy or retain an object give a reference that
-- the caller owns.
pub record Security (S : Type 0) : Type 0 where
  pub err_sec_success : ℤ
  pub err_sec_item_not_found : ℤ
  pub create_dictionary : Query → S → Option Ref × S
  pub create_array : Option Ref → S → Option Ref × S
  pub create_data : Bytes → S → Option Ref × S
  pub create_string : Text → S → Ref × S
  pub copy_matching : Ref → S → (ℤ × Ref) × S
  pub delete_matching : Ref → S → ℤ × S
  pub import_pkcs12 : Ref → Ref → S → (ℤ × Ref) × S
  pub array_values : Ref → S → List Ref
  pub data_bytes : Ref → S → Bytes
  pub error_code : Ref → S → ℤ
  pub copy_certificate : Option Ref → S → (ℤ × Ref) × S
  pub copy_private_key : Option Ref → S → (ℤ × Ref) × S
  pub copy_certificate_data : Ref → S → Option Ref × S
  pub create_signature : Ref → KeyAlgorithm → Ref → S → (Option Ref × Option Ref) × S
  pub create_policy : S → Ref × S
  pub create_trust : Ref → Ref → S → (ℤ × Ref) × S
  -- True if the certificate is trusted; the error is set otherwise.
  pub evaluate_trust : Ref → S → (Bool × Option Ref) × S
  pub certificate_count : Ref → S → ℕ
  pub copy_chain : Ref → S → Option Ref × S
  pub chain_value : Ref → ℕ → S → Ref

pub record MacIdentity : Type 0 where
  pub ref : Option Ref
  pub kref : Option Ref
  pub cref : Option Ref
  pub crt : Option Certificate
  -- A nil chain is `none`.
  pub chain : Option (List Certificate)
