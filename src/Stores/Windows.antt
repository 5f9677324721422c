-- ===== src/Stores/Windows.antt =====
-- certstore/certstore_windows.go and the constants of certstore/crypt_strings_windows.go that it names.
-- CryptoAPI and CNG are parameters, which change a state of the system; handles are numbers, and a nil
-- handle is 0. The contexts of certificates that are duplicated and freed are written to the log.
pub mod Key
pub mod Identity
pub mod Store
pub mod Reverse
pub mod Ecdsa
pub mod Capi
pub mod Signing
pub mod Contexts
mod Tests
use git_kmssign.Base.{
  ℕ, ◌-◌, ◌^◌, Bool, true, false, if◌then◌else◌, ◌==◌, List, Option, none, some, Bytes,
}
use git_kmssign.Base.Int.{ℤ, pos, negsuc}
use git_kmssign.Base.Text.{Text}
use git_kmssign.Cert.{Hash, PublicKeyAlgorithm}
use git_kmssign.Stores.Run.{
  StoreError, win_error, security_status, unsupported_hash, call_failed, Reply, done, failed,
  crashed, Run,
}
use git_kmssign.Stores.System.{Ref, System}

-- What CryptAcquireCertificatePrivateKey gives.
pub record AcquiredKey : Type 0 where
  pub handle : ℕ
  pub key_spec : ℕ
  pub must_free : Bool

-- CERT_CHAIN_CONTEXT: how many chains it has, and the contexts of the first.
pub record ChainContext : Type 0 where
  pub chains : ℕ
  pub elements : List Ref

pub data ProviderParam : Type 0 where
  container name provider_type : ProviderParam

-- Flags of the headers of Windows.
pub record Flags : Type 0 where
  pub user_keyset : ℕ
  pub prefer_ncrypt_key : ℕ
  pub only_ncrypt_key : ℕ
  pub prefer_cng_ksp : ℕ
  pub always_cng_ksp : ℕ
  pub ncrypt_key_spec : ℕ

-- `none` and `false` are failures, for which last_error gives GetLastError. A padding is that of PKCS #1
-- v1.5 for a hash. Contexts and chains that the source looks for one after the other, each from the one
-- before it, are a list.
pub record Api (S : Type 0) : Type 0 where
  pub last_error : S → ℕ
  pub open_store : S → Option ℕ × S
  pub close_store : ℕ → S → Unit {0} × S
  pub find_chains : ℕ → S → List ChainContext × S
  pub import_pfx : Bytes → Text → ℕ → S → Option ℕ × S
  pub find_certificates : ℕ → S → List Ref × S
  pub add_certificate : ℕ → Ref → S → Bool × S
  pub delete_certificate : Ref → S → Bool × S
  pub encoded : Ref → S → Bytes
  pub acquire_key : Ref → S → Option AcquiredKey × S
  pub ncrypt_sign_length : ℕ → Option Hash → Bytes → S → (ℤ × ℕ) × S
  -- The buffer, of the length that is given, behind the call.
  pub ncrypt_sign : ℕ → Option Hash → Bytes → ℕ → S → (ℤ × Bytes) × S
  pub ncrypt_delete : ℕ → S → ℤ × S
  pub ncrypt_free : ℕ → S → Unit {0} × S
  pub release_context : ℕ → S → Unit {0} × S
  pub create_hash : ℕ → Hash → S → Option ℕ × S
  pub hash_size : ℕ → S → Option ℕ × S
  pub set_hash : ℕ → Bytes → S → Bool × S
  pub sign_hash_length : ℕ → ℕ → S → Option ℕ × S
  pub sign_hash : ℕ → ℕ → ℕ → S → Option Bytes × S
  pub destroy_hash : ℕ → S → Unit {0} × S
  pub param_size : ℕ → ProviderParam → S → Option ℕ × S
  pub param : ℕ → ProviderParam → ℕ → S → Option Bytes × S
  pub delete_key_set : Bytes → Bytes → Bytes → S → Bool × S

abbrev pub crypt_e_not_found : ℕ
crypt_e_not_found = 0x80092004

abbrev pub nte_bad_algid : ℕ
nte_bad_algid = 0x80090008

-- winPrivateKey. Of the public key, its type and its encoding.
pub record WinPrivateKey : Type 0 where
  pub algorithm : PublicKeyAlgorithm
  pub public_key : Bytes
  pub capi_prov : ℕ
  pub cng_handle : ℕ
  pub key_spec : ℕ

pub record WinIdentity : Type 0 where
  pub chain : List Ref
  pub signer : Option WinPrivateKey

-- The conversion of a SECURITY_STATUS, which is a C LONG of 32 bits, to a uint64: the sign is extended.
unfoldable pub to_security_status : ℤ → ℕ
to_security_status (pos n) = n
to_security_status (negsuc n) = 2 ^ 64 - 1 - n

-- checkStatus; `none` is nil.
unfoldable pub check_status : ℤ → Option StoreError
check_status s =
    let ss = to_security_status s in
    if ss == 0
    then none
    else (if ss == nte_bad_algid then some unsupported_hash else some (security_status ss))

-- checkError; `none` is nil.
abbrev pub code_error : ℕ → Option StoreError
code_error code = if code == 0 then none else some (win_error code)

-- lastError: without a code, the message alone.
abbrev pub or_message : Option StoreError → StoreError
or_message none = call_failed
or_message (some e) = e

-- `if err != nil { return err }` for such an error.
abbrev pub no_error : {St : Type 0} → Option StoreError → Run St (Unit {0})
no_error none st = (done tt, st)
no_error (some e) st = (failed e, st)

module _ {S I : Type 0} (os : Api S) where
  unfoldable pub last_error : {A : Type 0} → Run (System S I) A
  last_error st = (failed (or_message (code_error (os.last_error st.os))), st)

  -- A call that gives winFalse or nil.
  abbrev pub or_last_error : {A : Type 0} → Option A → Run (System S I) A
  or_last_error none = last_error
  or_last_error (some a) = λ st. (done a, st)

  abbrev pub true_or_last_error : Bool → Run (System S I) (Unit {0})
  true_or_last_error true = λ st. (done tt, st)
  true_or_last_error false = last_error

  -- A deferred call.
  abbrev pub deferring : {A : Type 0} → (S → Unit {0} × S) → Run (System S I) A → Run (System S I) A
  deferring f m st = let (a, st') = m st in (a, record st' { os = (f st'.os).1 })
