-- ===== src/Azure.antt =====
-- azuresign: signing with a key in Azure Key Vault, and certstore/certstore_linux.go, the store with the one
-- identity that it gives. The environment, files, encoding/pem, crypto/x509 and the Azure SDK are
-- parameters.
pub mod Config
pub mod Certificates
pub mod Signing
pub mod Store
mod Tests
use git_kmssign.Base.{ℕ, Bool, List, Option, Bytes}
use git_kmssign.Base.Text.{Text}
use git_kmssign.Cert.{Certificate}

-- azkeys.SignatureAlgorithm, the two values that are used.
pub data VaultAlgorithm : Type 0 where
  rs256 ps256 : VaultAlgorithm

-- keyVaultClient: the key's name and version, the algorithm and the digest; `none` is an error. A timeout
-- is an error, too.
pub record Vault : Type 0 where
  pub sign : Text → Text → VaultAlgorithm → Bytes → Option Bytes

-- pem.Block
pub record Block : Type 0 where
  pub kind : Text
  pub bytes : Bytes

-- os.Getenv, os.ReadFile, pem.Decode, x509.ParseCertificate, NewDefaultAzureCredential and
-- azkeys.NewClient.
pub record Environment : Type 0 where
  pub getenv : Text → Text
  pub read_file : Text → Option Bytes
  pub pem_decode : Bytes → Option (Block × Bytes)
  pub parse_certificate : Bytes → Option Certificate
  pub has_credential : Bool
  pub new_client : Text → Option Vault
