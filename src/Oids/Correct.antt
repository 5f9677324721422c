-- ===== src/Oids/Correct.antt =====
-- The tables of ietf-cms/oid/oid.go agree with each other.
use git_kmssign.Base.{◌≡◌, refl, some}
use git_kmssign.Cert.{
  Oid, Hash, PublicKeyAlgorithm, SignatureAlgorithm, sha1_with_rsa, md5_with_rsa, sha256_with_rsa,
  sha384_with_rsa, sha512_with_rsa, ecdsa_with_sha1, ecdsa_with_sha256, ecdsa_with_sha384,
  ecdsa_with_sha512, dsa_with_sha1, unknown_signature_algorithm, other_signature_algorithm,
}
use git_kmssign.Oids.{
  look_up, digest_algorithm_to_crypto_hash, crypto_hash_to_digest_algorithm,
  x509_signature_algorithm_to_digest_algorithm, x509_signature_algorithm_to_public_key_algorithm,
  public_key_and_digest_algorithm_to_x509_signature_algorithm,
  signature_algorithm_to_x509_signature_algorithm,
  x509_public_key_and_digest_algorithm_to_signature_algorithm,
}

-- The digest identifier of each hash is read as that hash.
pub crypto_hash_round_trip :
    (h : Hash)
    → look_up digest_algorithm_to_crypto_hash (crypto_hash_to_digest_algorithm h) ≡ some h
unfolding look_up crypto_hash_to_digest_algorithm
crypto_hash_round_trip Hash.md5 = refl
crypto_hash_round_trip Hash.sha1 = refl
crypto_hash_round_trip Hash.sha256 = refl
crypto_hash_round_trip Hash.sha384 = refl
crypto_hash_round_trip Hash.sha512 = refl

some-injective : {x y : Oid} → some x ≡ some y → x ≡ y
some-injective e = cc

-- The public key and digest identifiers of an algorithm of crypto/x509 are read as that algorithm.
signature_algorithm_round_trip :
    (algorithm : SignatureAlgorithm) (key digest : Oid)
    → x509_signature_algorithm_to_public_key_algorithm algorithm ≡ some key
    → x509_signature_algorithm_to_digest_algorithm algorithm ≡ some digest
    → look_up (public_key_and_digest_algorithm_to_x509_signature_algorithm key) digest
      ≡ some algorithm
unfolding look_up x509_signature_algorithm_to_public_key_algorithm
    x509_signature_algorithm_to_digest_algorithm
    public_key_and_digest_algorithm_to_x509_signature_algorithm
signature_algorithm_round_trip sha1_with_rsa key digest k d =
    rw (← some-injective k, ← some-injective d) refl
signature_algorithm_round_trip md5_with_rsa key digest k d =
    rw (← some-injective k, ← some-injective d) refl
signature_algorithm_round_trip sha256_with_rsa key digest k d =
    rw (← some-injective k, ← some-injective d) refl
signature_algorithm_round_trip sha384_with_rsa key digest k d =
    rw (← some-injective k, ← some-injective d) refl
signature_algorithm_round_trip sha512_with_rsa key digest k d =
    rw (← some-injective k, ← some-injective d) refl
signature_algorithm_round_trip ecdsa_with_sha1 key digest k d =
    rw (← some-injective k, ← some-injective d) refl
signature_algorithm_round_trip ecdsa_with_sha256 key digest k d =
    rw (← some-injective k, ← some-injective d) refl
signature_algorithm_round_trip ecdsa_with_sha384 key digest k d =
    rw (← some-injective k, ← some-injective d) refl
signature_algorithm_round_trip ecdsa_with_sha512 key digest k d =
    rw (← some-injective k, ← some-injective d) refl
signature_algorithm_round_trip dsa_with_sha1 key digest k d = cc
signature_algorithm_round_trip unknown_signature_algorithm key digest k d = cc
signature_algorithm_round_trip (other_signature_algorithm n) key digest k d = cc

-- The signature identifier that is chosen for a key and a digest stands for an algorithm of
-- crypto/x509 with that digest.
pub chosen_signature_algorithm :
    (key : PublicKeyAlgorithm) (h : Hash) (oid : Oid)
    → look_up
        (x509_public_key_and_digest_algorithm_to_signature_algorithm key)
        (crypto_hash_to_digest_algorithm h)
      ≡ some oid
    → (algorithm : SignatureAlgorithm) × (look_up signature_algorithm_to_x509_signature_algorithm
          oid
        ≡ some algorithm)
      × (x509_signature_algorithm_to_digest_algorithm algorithm
          ≡ some (crypto_hash_to_digest_algorithm h))
unfolding look_up crypto_hash_to_digest_algorithm x509_signature_algorithm_to_digest_algorithm
    x509_public_key_and_digest_algorithm_to_signature_algorithm
chosen_signature_algorithm PublicKeyAlgorithm.rsa Hash.md5 oid e =
    (md5_with_rsa, rw (← some-injective e) refl, refl)
chosen_signature_algorithm PublicKeyAlgorithm.rsa Hash.sha1 oid e =
    (sha1_with_rsa, rw (← some-injective e) refl, refl)
chosen_signature_algorithm PublicKeyAlgorithm.rsa Hash.sha256 oid e =
    (sha256_with_rsa, rw (← some-injective e) refl, refl)
chosen_signature_algorithm PublicKeyAlgorithm.rsa Hash.sha384 oid e =
    (sha384_with_rsa, rw (← some-injective e) refl, refl)
chosen_signature_algorithm PublicKeyAlgorithm.rsa Hash.sha512 oid e =
    (sha512_with_rsa, rw (← some-injective e) refl, refl)
chosen_signature_algorithm PublicKeyAlgorithm.ecdsa Hash.md5 oid e = cc
chosen_signature_algorithm PublicKeyAlgorithm.ecdsa Hash.sha1 oid e =
    (ecdsa_with_sha1, rw (← some-injective e) refl, refl)
chosen_signature_algorithm PublicKeyAlgorithm.ecdsa Hash.sha256 oid e =
    (ecdsa_with_sha256, rw (← some-injective e) refl, refl)
chosen_signature_algorithm PublicKeyAlgorithm.ecdsa Hash.sha384 oid e =
    (ecdsa_with_sha384, rw (← some-injective e) refl, refl)
chosen_signature_algorithm PublicKeyAlgorithm.ecdsa Hash.sha512 oid e =
    (ecdsa_with_sha512, rw (← some-injective e) refl, refl)
chosen_signature_algorithm PublicKeyAlgorithm.dsa h oid e = cc
chosen_signature_algorithm (PublicKeyAlgorithm.other_key n) h oid e = cc
