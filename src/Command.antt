-- ===== src/Command.antt =====
-- The program's commands: what main.go, command_sign.go, command_verify.go and list_keys_command.go
-- read and use, as parameters.
pub mod Run
pub mod Input
pub mod Options
pub mod Sign
pub mod Verify
pub mod ListKeys
pub mod Package
pub mod Main
mod Tests
use git_kmssign.Base.{ℕ, Bool, List, Option, Bytes}
use git_kmssign.Base.Int.{ℤ}
use git_kmssign.Base.Text.{Text}
use git_kmssign.Cert.{Certificate, Identity}
use git_kmssign.Status.Signature.{OpenPgp}

-- x509.VerifyOptions: the roots; every key usage is accepted.
pub record VerifyOptions : Type 0 where
  pub roots : List Certificate

-- The chains of each signature's certificate.
abbrev pub Chains : Type 0
Chains = List (List (List Certificate))

-- What a call of package cms comes to: a value, an error, or a panic.
pub data Called {ℓ} (A : Type ℓ) : Type ℓ where
  returned : A → Called A
  erred raised : Called A

-- What Verify and VerifyDetached return: chains and no error, or chains and an error; or they panic.
pub data Verdict : Type 0 where
  verified refused : Chains → Verdict
  broken : Verdict

-- The functions of package cms (ietf-cms) that the commands call. A signer is known by its public key.
pub record Cms : Type 1 where
  pub SignedData : Type 0
  pub new_signed_data : Bytes → Called SignedData
  pub sign : List Certificate → Bytes → SignedData → Called SignedData
  pub detached : SignedData → SignedData
  pub add_timestamps : Text → SignedData → Called SignedData
  pub set_certificates : List Certificate → SignedData → Called SignedData
  pub to_der : SignedData → Called Bytes
  pub parse_signed_data : Bytes → Called SignedData
  pub verify : VerifyOptions → SignedData → Verdict
  pub verify_detached : Bytes → VerifyOptions → SignedData → Verdict

-- What the program finds outside: libraries, files, streams, the clock and the certificate store.
pub record System : Type 0 where
  pub sha1 : Bytes → Bytes
  pub pgp : OpenPgp
  -- os.Open; what is read to the end of the file, unless that fails.
  pub open_file : Text → Option (Option Bytes)
  pub stdin : Option Bytes
  -- Whether the signature can be written to stdout.
  pub can_write : Bool
  -- pem.Decode and pem.Encode, with the type SIGNED MESSAGE.
  pub pem_decode : Bytes → Option Bytes
  pub pem_encode : Bytes → Bytes
  -- time.Now().Unix()
  pub now : ℕ
  -- x509.SystemCertPool and gocertifi.CACerts.
  pub system_cert_pool : Option (List Certificate)
  pub ca_certs : Option (List Certificate)
  -- What fmt prints with %s for the method value in emitBadSig.
  pub method_value : Text
  -- os.Getenv("GIT_KMSSIGN_INCLUDE_CERTS")
  pub include_certs_env : Text
  -- certstore.Open, and Identities of the store.
  pub store : Option (Option (List Identity))
