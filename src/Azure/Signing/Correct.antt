-- ===== src/Azure/Signing/Correct.antt =====
-- What the signer of azuresign/signer.go asks the vault for.
use git_kmssign.Base.{
  not-eq-false, ◌≡◌, ◌≢◌, refl, sym, ap, ◌∙◌, subst, ◌↔◌, true, false, not, [], ◌∷◌, length, ◌==◌,
  ==_iff, Bytes, Option, none, some, ok, fail_if, or_err, >>=-eq-ok, or_err-eq-ok, fail_if-eq-ok,
  ok-injective, unsupported_hash, wrong_digest_length, vault_failed, empty_signature, arith,
}
use git_kmssign.Cert.{Hash}
use git_kmssign.Azure.{VaultAlgorithm, rs256, ps256}
use git_kmssign.Azure.Signing.{
  VaultSigner, SignerOpts, hash_opts, pss_opts, hash_func, is_sha256, vault_algorithm, vault_sign,
}

-- PSS is asked for as PSS, and everything else as PKCS #1 v1.5.
abbrev pub algorithm_for : SignerOpts → VaultAlgorithm
algorithm_for (hash_opts hash) = rs256
algorithm_for (pss_opts hash) = ps256

is_sha256-eq : (hash : Option Hash) → is_sha256 hash ≡ true → hash ≡ some Hash.sha256
is_sha256-eq none h = cc
is_sha256-eq (some Hash.md5) h = cc
is_sha256-eq (some Hash.sha1) h = cc
is_sha256-eq (some Hash.sha256) h = refl
is_sha256-eq (some Hash.sha384) h = cc
is_sha256-eq (some Hash.sha512) h = cc

vault_algorithm-eq :
    (opts : SignerOpts)
    → is_sha256 (hash_func opts) ≡ true
    → vault_algorithm opts ≡ ok (algorithm_for opts)
unfolding vault_algorithm
vault_algorithm-eq (hash_opts hash) h = refl
vault_algorithm-eq (pss_opts hash) h = rw h refl

-- The vault made the signature of a digest of SHA-256, with the algorithm that the options ask for.
pub record VaultSigned (s : VaultSigner) (digest : Bytes) (maybe_opts : Option SignerOpts)
    (sig : Bytes) : Type 0 where
  pub opts : SignerOpts
  pub is_opts : maybe_opts ≡ some opts
  pub is_hash : hash_func opts ≡ some Hash.sha256
  pub is_digest : length digest ≡ 32
  pub is_signature : s.client.sign s.key_name s.key_version (algorithm_for opts) digest ≡ some sig
  pub is_some : sig ≢ []

some-length : (b : Bytes) → (length b == 0) ≡ false → b ≢ []
some-length [] h = cc
some-length (x ∷ b) h = λ e. cc

length-some : (b : Bytes) → b ≢ [] → (length b == 0) ≡ false
length-some [] h = absurd (h refl)
length-some (x ∷ b) h = ground arith

-- Sign returns a signature exactly if the options ask for SHA-256, the digest has its 32 bytes, and the
-- vault signs the digest, with PS256 if PSS is asked for and with RS256 otherwise, by a signature that is
-- not empty.
pub vault_sign_iff :
    (s : VaultSigner) (digest : Bytes) (opts : Option SignerOpts) (sig : Bytes)
    → (vault_sign s digest opts ≡ ok sig) ↔ VaultSigned s digest opts sig
unfolding vault_sign
vault_sign_iff s digest maybe_opts sig = (
  λ h.
      let (opts, e₁, h₁) = >>=-eq-ok (or_err maybe_opts unsupported_hash) _ h in
      let (_, e₂, h₂) =
        >>=-eq-ok (fail_if (not (is_sha256 (hash_func opts))) unsupported_hash) _ h₁ in
      let (_, e₃, h₃) = >>=-eq-ok (fail_if (not (length digest == 32)) wrong_digest_length) _ h₂ in
      let (alg, e₄, h₄) = >>=-eq-ok (vault_algorithm opts) _ h₃ in
      let (resp, e₅, h₅) =
        >>=-eq-ok (or_err (s.client.sign s.key_name s.key_version alg digest) vault_failed) _ h₄ in
      let (_, e₆, h₆) = >>=-eq-ok (fail_if (length resp == 0) empty_signature) _ h₅ in
      let sha = not-eq-false (fail_if-eq-ok _ unsupported_hash e₂) in
      let asked = ok-injective (sym e₄ ∙ vault_algorithm-eq opts sha) in
      subst (VaultSigned s digest maybe_opts) (ok-injective h₆) (record {
        opts = opts;
        is_opts = or_err-eq-ok maybe_opts unsupported_hash e₁;
        is_hash = is_sha256-eq (hash_func opts) sha;
        is_digest =
            (==_iff (length digest) 32).0 (not-eq-false (fail_if-eq-ok _ wrong_digest_length e₃));
        is_signature =
            subst (λ alg. s.client.sign s.key_name s.key_version alg digest ≡ some resp) asked
              (or_err-eq-ok _ vault_failed e₅);
        is_some = some-length resp (fail_if-eq-ok _ empty_signature e₆);
      }),
  λ v.
      let sha : is_sha256 (hash_func v.opts) ≡ true = ap is_sha256 v.is_hash in
      let long : (length digest == 32) ≡ true = (==_iff (length digest) 32).1 v.is_digest in
      rw
        (
          v.is_opts,
          sha,
          long,
          vault_algorithm-eq v.opts sha,
          v.is_signature,
          length-some sig v.is_some,
        )
        refl,
)
