-- ===== src/Azure/Tests.antt =====
-- The theorems on azuresign and certstore/certstore_linux.go at concrete inputs.
use git_kmssign.Base.{
  ◌≡◌, ◌≢◌, refl, ap, true, List, [], ◌∷◌, ◌++◌, length, ◌==◌, Bytes, bytes_eq, Option, none, some,
  Result, ok, fail_if, ◌>>=◌, no_pem_certificates, arith, if◌then◌else◌,
}
use git_kmssign.Base.Text.{codes}
use git_kmssign.Cert.{Hash}
use git_kmssign.Cert.Samples.{root}
use git_kmssign.Oids.{look_up, x509_public_key_and_digest_algorithm_to_signature_algorithm}
use git_kmssign.Protocol.{Attribute, SignerInfo, SignedData}
use git_kmssign.Protocol.Content.{e_content_value, e_content_value_of, octets_value}
use git_kmssign.Protocol.Samples.{toy, toy_crypto, attached_data, issued_leaf, or_else, signed_data}
use git_kmssign.Protocol.Signed.{has_digest_algorithm, add_certificate, is_added}
use git_kmssign.Protocol.Signers.{signer_hash}
use git_kmssign.Protocol.Signing.{
  Crypto, add_signer_info, add_chain, new_issuer_and_serial_number, unsigned_signer_info,
  digest_algorithm_for_public_key, sign_signer_info, signed_attributes, new_attribute,
  encode_any_set, encode_elements, sort_attributes, insert_attribute, bytes_less,
  marshaled_for_signing,
}
use git_kmssign.Azure.{Block, Environment, Vault, rs256}
use git_kmssign.Azure.Config.{
  Config, env_key_version, append_missing, missing_of, read_config, config_or_missing, load_config,
}
use git_kmssign.Azure.Certificates.{add_block, load_blocks, load_certificates}
use git_kmssign.Azure.Certificates.Correct.{
  Blocks, certificates_of, DecodesBytes, load_certificates-certificates_of,
}
use git_kmssign.Azure.Config.Correct.{Loads, load_config-Loads}
use git_kmssign.Azure.Signing.{pss_opts, new_signer, vault_algorithm, vault_sign, VaultSigner}
use git_kmssign.Azure.Signing.Correct.{VaultSigned, vault_sign_iff}
use git_kmssign.Azure.Store.{VaultIdentity, first_of, new_identity, identities, crypto_signer}
use git_kmssign.Azure.Store.Correct.{MadeFrom, identities-MadeFrom, add_signer_info-vault}

-- Every byte of a file is a block: 1 is a certificate.
abbrev toy_pem : Bytes → Option (Block × Bytes)
toy_pem [] = none
toy_pem (b ∷ rest) = some (
  record { kind = if b == 1 then codes "CERTIFICATE" else codes "PRIVATE KEY"; bytes = b ∷ [] },
  rest,
)

abbrev toy_vault : Vault
toy_vault = record { sign = λ name version alg digest. some (7 ∷ []) }

-- Every variable is set to its own name, and the version is empty.
abbrev toy_environment : Environment
toy_environment = record {
  getenv = λ name. if bytes_eq name env_key_version then [] else name;
  read_file = λ path. some (2 ∷ 1 ∷ []);
  pem_decode = toy_pem;
  parse_certificate = λ b. some root;
  has_credential = true;
  new_client = λ url. some toy_vault;
}

toy-DecodesBytes : DecodesBytes toy_environment
toy-DecodesBytes [] block rest' h = cc
toy-DecodesBytes (b ∷ rest) block rest' h =
    let same : rest ≡ rest' = cc in let e = ap length same in omega arith

load_config-Loads_example : Loads (λ name. []) (load_config (λ name. []))
load_config-Loads_example = load_config-Loads (λ name. [])

load_certificates-certificates_of_example :
    (blocks : List Block) × Blocks toy_environment (2 ∷ 1 ∷ []) blocks
    × (load_certificates toy_environment [] ≡ (
        certificates_of toy_environment blocks >>= λ certs.
        fail_if (length certs == 0) no_pem_certificates >>= λ _. ok certs))
load_certificates-certificates_of_example =
    load_certificates-certificates_of toy_environment [] (2 ∷ 1 ∷ []) toy-DecodesBytes refl

abbrev digest_32 : Bytes
digest_32 =
    0 ∷ 0 ∷ 0 ∷ 0 ∷ 0 ∷ 0 ∷ 0 ∷ 0 ∷ 0 ∷ 0 ∷ 0 ∷ 0 ∷ 0 ∷ 0 ∷ 0 ∷ 0 ∷ 0 ∷ 0 ∷ 0 ∷ 0 ∷ 0 ∷ 0 ∷ 0 ∷ 0
    ∷ 0 ∷ 0 ∷ 0 ∷ 0 ∷ 0 ∷ 0 ∷ 0 ∷ 0 ∷ []

abbrev toy_vault_signer : VaultSigner
toy_vault_signer = record {
  client = toy_vault;
  key_name = 1 ∷ [];
  key_version = [];
  pub_key = 2 ∷ [];
}

vault_sign_iff_example :
    VaultSigned toy_vault_signer digest_32 (some (pss_opts (some Hash.sha256))) (7 ∷ [])
vault_sign_iff_example =
    (vault_sign_iff toy_vault_signer digest_32 (some (pss_opts (some Hash.sha256))) (7 ∷ [])).0
      (unfold vault_sign vault_algorithm in refl)

abbrev or_none : Result (List VaultIdentity) → List VaultIdentity
or_none (ok ids) = ids
or_none _ = []

identities-run : identities toy_environment ≡ ok (or_none (identities toy_environment))
unfolding identities load_config read_config missing_of append_missing config_or_missing
    new_identity load_certificates load_blocks add_block first_of new_signer
identities-run = refl

identities-MadeFrom_example :
    (cfg : Config) × (id : VaultIdentity) × (load_config toy_environment.getenv ≡ ok cfg)
    × (or_none (identities toy_environment) ≡ id ∷ [])
    × MadeFrom toy_environment cfg id
identities-MadeFrom_example =
    identities-MadeFrom toy_environment (or_none (identities toy_environment)) identities-run

-- A hash with digests of 32 bytes.
abbrev long_crypto : Crypto
long_crypto = record toy_crypto { digest = λ hash b. digest_32 }

abbrev vault_run : Result SignedData
vault_run =
    add_signer_info toy long_crypto (issued_leaf ∷ []) (crypto_signer toy_vault_signer)
      attached_data

abbrev vault_signed : SignedData
vault_signed = or_else signed_data vault_run

add_signer_info-run : vault_run ≡ ok vault_signed
unfolding add_signer_info add_chain add_certificate is_added new_issuer_and_serial_number
    unsigned_signer_info look_up x509_public_key_and_digest_algorithm_to_signature_algorithm
    digest_algorithm_for_public_key sign_signer_info e_content_value e_content_value_of octets_value
    signer_hash signed_attributes new_attribute encode_any_set encode_elements sort_attributes
    insert_attribute bytes_less marshaled_for_signing crypto_signer vault_sign vault_algorithm
add_signer_info-run = refl

add_signer_info-vault_example :
    (si : SignerInfo) × (attrs : List Attribute) × (marshaled : Bytes) × (vault_signed.signer_infos
      ≡ [] ++ (si ∷ []))
    × (si.signed_attrs ≡ some attrs)
    × (marshaled_for_signing toy attrs ≡ ok marshaled)
    × (length digest_32 ≡ 32)
    × (toy_vault.sign (1 ∷ []) [] rs256 digest_32 ≡ some si.signature)
    × (si.signature ≢ [])
add_signer_info-vault_example =
    add_signer_info-vault toy long_crypto (issued_leaf ∷ []) toy_vault_signer attached_data
      vault_signed (unfold has_digest_algorithm in (refl, tt)) add_signer_info-run
