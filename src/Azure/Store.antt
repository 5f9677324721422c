-- ===== src/Azure/Store.antt =====
-- azuresign/client.go, and certstore/certstore_linux.go, whose store has the one identity that it makes.
pub mod Correct
use git_kmssign.Base.{
  ℕ, Bool, not, List, [], ◌∷◌, Bytes, Option, none, some, Result, ok, err, panic, stuck, ◌>>=◌,
  ◌>>◌, fail_if, or_err, or_panic, no_credential, no_vault_client, not_supported,
}
use git_kmssign.Base.Text.{Text}
use git_kmssign.Cert.{Certificate, Identity}
use git_kmssign.Protocol.Signing.{Signer}
use git_kmssign.Azure.{Environment}
use git_kmssign.Azure.Config.{Config, load_config}
use git_kmssign.Azure.Certificates.{load_certificates}
use git_kmssign.Azure.Signing.{VaultSigner, hash_opts, new_signer, public_key_of, vault_sign}

pub record VaultIdentity : Type 0 where
  pub signer : VaultSigner
  pub certs : List Certificate

-- certs[0]
unfoldable pub first_of : List Certificate → Option Certificate
first_of [] = none
first_of (cert ∷ certs) = some cert

unfoldable pub leaf_certificate : VaultIdentity → Result Certificate
leaf_certificate id = or_panic (first_of id.certs)

pub chain_of : VaultIdentity → List Certificate
chain_of id = id.certs

module _ (env : Environment) where
  unfoldable pub new_identity : Config → Result VaultIdentity
  new_identity cfg = do
    certs ← load_certificates env cfg.cert_path
    fail_if (not env.has_credential) no_credential
    client ← or_err (env.new_client cfg.vault_url) no_vault_client
    leaf ← or_panic (first_of certs)
    signer ← new_signer (some client) cfg.key_name cfg.key_version (some leaf)
    ok (record { signer = signer; certs = certs })

  -- openStore and Identities of its store.
  unfoldable pub identities : Result (List VaultIdentity)
  identities = do cfg ← load_config env.getenv; id ← new_identity cfg; ok (id ∷ [])

-- Import and Delete always fail.
pub import_identity : Bytes → Text → Result (Unit {0})
import_identity contents password = err not_supported

pub delete_identity : VaultIdentity → Result (Unit {0})
delete_identity id = err not_supported

-- A result that the interface of certstore gives, without its error.
abbrev pub value_of : {A : Type 0} → Result A → Option A
value_of (ok a) = some a
value_of (err e) = none
value_of panic = none
value_of stuck = none

-- The identity as certstore/certstore.go presents it: kmsIdentity's Certificate, CertificateChain and
-- Signer.
unfoldable pub kms_identity : VaultIdentity → Identity
kms_identity id = record {
  certificate = value_of (leaf_certificate id);
  certificate_chain = some (chain_of id);
  signer = some (public_key_of id.signer);
}

-- The signer as AddSignerInfo uses it: with a hash as options.
unfoldable pub crypto_signer : VaultSigner → Signer
crypto_signer s = record {
  public_key = some s.pub_key;
  sign = λ digest hash. value_of (vault_sign s digest (some (hash_opts (some hash))));
}
