-- ===== src/Azure/Signing.antt =====
-- azuresign/signer.go.
pub mod Correct
use git_kmssign.Base.{
  ℕ, Bool, true, false, not, List, [], ◌∷◌, length, ◌==◌, Bytes, Option, none, some, Result, ok,
  err, ◌>>=◌, ◌>>◌, fail_if, or_err, nil_vault_client, empty_key_name, nil_leaf, unsupported_key,
  unsupported_hash, wrong_digest_length, vault_failed, empty_signature,
}
use git_kmssign.Base.Text.{Text}
use git_kmssign.Cert.{Hash, PublicKeyAlgorithm, Certificate}
use git_kmssign.Azure.{VaultAlgorithm, rs256, ps256, Vault}

-- The key is known by its encoding.
pub record VaultSigner : Type 0 where
  pub client : Vault
  pub key_name : Text
  pub key_version : Text
  pub pub_key : Bytes

-- crypto.SignerOpts: *rsa.PSSOptions, or other options by what HashFunc returns. A hash that the source
-- does not name, or none, is `none`. HashFunc of PSSOptions returns their Hash.
pub data SignerOpts : Type 0 where
  hash_opts : Option Hash → SignerOpts
  pss_opts : Option Hash → SignerOpts

abbrev pub hash_func : SignerOpts → Option Hash
hash_func (hash_opts hash) = hash
hash_func (pss_opts hash) = hash

abbrev pub is_sha256 : Option Hash → Bool
is_sha256 (some Hash.sha256) = true
is_sha256 _ = false

-- leaf.PublicKey.(*rsa.PublicKey): crypto/x509 gives such a key to the certificates with that algorithm.
abbrev pub is_rsa : PublicKeyAlgorithm → Bool
is_rsa PublicKeyAlgorithm.rsa = true
is_rsa _ = false

unfoldable pub new_signer : Option Vault → Text → Text → Option Certificate → Result VaultSigner
new_signer client key_name key_version leaf = do
  vault ← or_err client nil_vault_client
  fail_if (length key_name == 0) empty_key_name
  cert ← or_err leaf nil_leaf
  fail_if (not (is_rsa cert.public_key_algorithm)) unsupported_key
  ok (record {
    client = vault;
    key_name = key_name;
    key_version = key_version;
    pub_key = cert.public_key;
  })

pub public_key_of : VaultSigner → Bytes
public_key_of s = s.pub_key

-- The algorithm that is asked for.
unfoldable pub vault_algorithm : SignerOpts → Result VaultAlgorithm
vault_algorithm (hash_opts hash) = ok rs256
vault_algorithm (pss_opts hash) = fail_if (not (is_sha256 hash)) unsupported_hash >> ok ps256

unfoldable pub vault_sign : VaultSigner → Bytes → Option SignerOpts → Result Bytes
vault_sign s digest maybe_opts = do
  opts ← or_err maybe_opts unsupported_hash
  fail_if (not (is_sha256 (hash_func opts))) unsupported_hash
  fail_if (not (length digest == 32)) wrong_digest_length
  alg ← vault_algorithm opts
  resp ← or_err (s.client.sign s.key_name s.key_version alg digest) vault_failed
  fail_if (length resp == 0) empty_signature
  ok resp
