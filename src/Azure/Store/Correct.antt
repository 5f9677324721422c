-- ===== src/Azure/Store/Correct.antt =====
-- The identity of the store in certstore/certstore_linux.go, and the signatures that it makes.
use git_kmssign.Base.{
  ◌≡◌, ◌≢◌, refl, sym, ap, ◌∙◌, subst, true, not, List, [], ◌∷◌, ◌++◌, length, ◌==◌, Bytes, Option,
  none, some, Result, ok, err, panic, stuck, fail_if, or_err, or_panic, >>=-eq-ok, or_err-eq-ok,
  fail_if-eq-ok, ok-injective, not-eq-false, no_credential, no_vault_client, empty_key_name,
  unsupported_key,
}
use git_kmssign.Base.Text.{Text}
use git_kmssign.Cert.{Hash, Certificate}
use git_kmssign.Protocol.{Attribute, SignerInfo, SignedData, Asn1}
use git_kmssign.Protocol.Signed.Correct.{Distinct}
use git_kmssign.Protocol.Signing.{Crypto, marshaled_for_signing, add_signer_info}
use git_kmssign.Protocol.Signing.Correct.{add_signer_info-IsSigned}
use git_kmssign.Azure.{Environment, Vault, rs256}
use git_kmssign.Azure.Config.{Config, load_config}
use git_kmssign.Azure.Certificates.{load_certificates}
use git_kmssign.Azure.Signing.{VaultSigner, hash_opts, hash_func, is_rsa, new_signer, vault_sign}
use git_kmssign.Azure.Signing.Correct.{algorithm_for, VaultSigned, vault_sign_iff}
use git_kmssign.Azure.Store.{
  VaultIdentity, first_of, leaf_certificate, value_of, new_identity, identities, crypto_signer,
}

or_panic-eq-ok : {A : Type 0} (o : Option A) {a : A} → or_panic o ≡ ok a → o ≡ some a
or_panic-eq-ok none h = cc
or_panic-eq-ok (some a) h = cc

-- An identity that was made from the environment: its certificates are those of the file, the first of
-- them has an RSA key, and the signer has that key and the vault's coordinates.
pub record MadeFrom (env : Environment) (cfg : Config) (id : VaultIdentity) : Type 0 where
  pub leaf : Certificate
  pub is_leaf : leaf_certificate id ≡ ok leaf
  pub is_certs : load_certificates env cfg.cert_path ≡ ok id.certs
  pub has_rsa : is_rsa leaf.public_key_algorithm ≡ true
  pub is_key : id.signer.pub_key ≡ leaf.public_key
  pub is_name : id.signer.key_name ≡ cfg.key_name
  pub is_version : id.signer.key_version ≡ cfg.key_version
  pub is_client : env.new_client cfg.vault_url ≡ some id.signer.client

new_signer-parts :
    (vault : Vault) (name version : Text) (leaf : Certificate) {s : VaultSigner}
    → new_signer (some vault) name version (some leaf) ≡ ok s
    → (is_rsa leaf.public_key_algorithm ≡ true)
      × (record {
        client = vault;
        key_name = name;
        key_version = version;
        pub_key = leaf.public_key;
      }
          ≡ s)
unfolding new_signer
new_signer-parts vault name version leaf h =
    let (_, e₁, h₁) = >>=-eq-ok (fail_if (length name == 0) empty_key_name) _ h in
    let (_, e₂, h₂) =
      >>=-eq-ok (fail_if (not (is_rsa leaf.public_key_algorithm)) unsupported_key) _ h₁ in
    (not-eq-false (fail_if-eq-ok _ unsupported_key e₂), ok-injective h₂)

new_identity-MadeFrom :
    (env : Environment) (cfg : Config) (id : VaultIdentity)
    → new_identity env cfg ≡ ok id
    → MadeFrom env cfg id
unfolding new_identity leaf_certificate
new_identity-MadeFrom env cfg id h =
    let (certs, e₁, h₁) = >>=-eq-ok (load_certificates env cfg.cert_path) _ h in
    let (_, e₂, h₂) = >>=-eq-ok (fail_if (not env.has_credential) no_credential) _ h₁ in
    let (client, e₃, h₃) = >>=-eq-ok (or_err (env.new_client cfg.vault_url) no_vault_client) _ h₂ in
    let (leaf, e₄, h₄) = >>=-eq-ok (or_panic (first_of certs)) _ h₃ in
    let (signer, e₅, h₅) =
      >>=-eq-ok (new_signer (some client) cfg.key_name cfg.key_version (some leaf)) _ h₄ in
    let (rsa, made) = new_signer-parts client cfg.key_name cfg.key_version leaf e₅ in
    subst (MadeFrom env cfg) (ok-injective h₅) (
      subst (λ s. MadeFrom env cfg (record { signer = s; certs = certs })) made
        (record {
          leaf = leaf;
          is_leaf = e₄;
          is_certs = e₁;
          has_rsa = rsa;
          is_key = refl;
          is_name = refl;
          is_version = refl;
          is_client = or_err-eq-ok _ no_vault_client e₃;
        }))

-- Identities that returns no error returns one identity, made from the configuration that LoadConfig
-- returned: Leaf does not panic on it, and its signer holds the key of the leaf.
pub identities-MadeFrom :
    (env : Environment) (ids : List VaultIdentity)
    → identities env ≡ ok ids
    → (cfg : Config) × (id : VaultIdentity) × (load_config env.getenv ≡ ok cfg)
      × (ids ≡ id ∷ [])
      × MadeFrom env cfg id
unfolding identities
identities-MadeFrom env ids h =
    let (cfg, e₁, h₁) = >>=-eq-ok (load_config env.getenv) _ h in
    let (id, e₂, h₂) = >>=-eq-ok (new_identity env cfg) _ h₁ in
    (cfg, id, e₁, sym (ok-injective h₂), new_identity-MadeFrom env cfg id e₂)

value_of-eq-some : {A : Type 0} (r : Result A) {a : A} → value_of r ≡ some a → r ≡ ok a
value_of-eq-some (ok a) h = cc
value_of-eq-some (err e) h = cc
value_of-eq-some panic h = cc
value_of-eq-some stuck h = cc

some-injective : {A : Type 0} {a b : A} → some a ≡ some b → a ≡ b
some-injective e = cc

-- What the vault signs for a hash.
hash_opts-VaultSigned :
    (s : VaultSigner) (digest : Bytes) (hash : Hash) (sig : Bytes)
    → VaultSigned s digest (some (hash_opts (some hash))) sig
    → (hash ≡ Hash.sha256)
      × (length digest ≡ 32)
      × (s.client.sign s.key_name s.key_version rs256 digest ≡ some sig)
      × (sig ≢ [])
hash_opts-VaultSigned s digest hash sig v =
    let same : v.opts ≡ hash_opts (some hash) = sym (some-injective v.is_opts) in
    (
      some-injective (sym (ap hash_func same) ∙ v.is_hash),
      v.is_digest,
      subst (λ o. s.client.sign s.key_name s.key_version (algorithm_for o) digest ≡ some sig) same
          v.is_signature,
      v.is_some,
    )

-- A signature that AddSignerInfo makes with the vault's signer is the vault's RS256 signature of the
-- SHA-256 digest, of 32 bytes, of the attributes that it marshaled, and not empty. The digest
-- algorithms of the message are distinct.
pub add_signer_info-vault :
    (asn1 : Asn1) (crypto : Crypto) (chain : List Certificate) (s : VaultSigner)
    (sd sd' : SignedData)
    → Distinct sd.digest_algorithms
    → add_signer_info asn1 crypto chain (crypto_signer s) sd ≡ ok sd'
    → (si : SignerInfo) × (attrs : List Attribute) × (marshaled : Bytes) × (sd'.signer_infos
        ≡ sd.signer_infos ++ (si ∷ []))
      × (si.signed_attrs ≡ some attrs)
      × (marshaled_for_signing asn1 attrs ≡ ok marshaled)
      × (length (crypto.digest Hash.sha256 marshaled) ≡ 32)
      × (s.client.sign s.key_name s.key_version rs256 (crypto.digest Hash.sha256 marshaled)
          ≡ some si.signature)
      × (si.signature ≢ [])
unfolding crypto_signer
add_signer_info-vault asn1 crypto chain s sd sd' d h =
    let (si, infos, signed, _, _, _, _) =
      add_signer_info-IsSigned asn1 crypto chain (crypto_signer s) sd sd' d h in
    let digest = crypto.digest signed.hash signed.marshaled in
    let run =
      value_of-eq-some (vault_sign s digest (some (hash_opts (some signed.hash))))
        signed.is_signature in
    let (sha, long, made, not_empty) =
      hash_opts-VaultSigned s digest signed.hash si.signature
        ((vault_sign_iff s digest (some (hash_opts (some signed.hash))) si.signature).0 run) in
    (
      si,
      signed.attributes,
      signed.marshaled,
      infos,
      signed.has_attributes,
      signed.is_marshaled,
      subst (λ k. length (crypto.digest k signed.marshaled) ≡ 32) sha long,
      subst
          (λ k.
            s.client.sign s.key_name s.key_version rs256 (crypto.digest k signed.marshaled)
            ≡ some si.signature)
          sha made,
      not_empty,
    )
