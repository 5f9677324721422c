-- ===== src/Status/Signature.antt =====
-- The lines of status.go that describe a signature: emitSigCreated, emitGoodSig, emitBadSig and
-- emitTrustFully.
use git_kmssign.Base.{
  ℕ, suc, zero, ◌+◌, ◌/◌, ◌%◌, Bool, List, [], ◌∷◌, ◌++◌, ◌==◌, if◌then◌else◌, Bytes,
}
use git_kmssign.Base.Int.{ℤ}
use git_kmssign.Base.Text.{Text, codes}
use git_kmssign.Cert.{
  Certificate, Hash, SignatureAlgorithm, sha1_with_rsa, sha256_with_rsa, sha384_with_rsa,
  sha512_with_rsa, ecdsa_with_sha1, ecdsa_with_sha256, ecdsa_with_sha384, ecdsa_with_sha512,
}
use git_kmssign.Fingerprint.{cert_hex_fingerprint}
use git_kmssign.Status.{emitf, sig_created, good_sig, bad_sig, trust_fully}
use git_kmssign.Status.Events.{Event}

-- The digits in front of `acc`; the fuel bounds their number.
decimal_digits : ℕ → ℕ → Text → Text
decimal_digits zero n acc = acc
decimal_digits (suc f) n acc =
    let acc' = (b'0' + n % 10) ∷ acc in
    let more = decimal_digits f (n / 10) acc' in if n / 10 == 0 then acc' else more

-- %d of an int64 that is not negative, which has at most 19 digits.
pub decimal : ℕ → Text
unfolding decimal_digits
decimal n = decimal_digits 20 n []

-- The constants of golang.org/x/crypto/openpgp: the algorithm numbers of package packet, and
-- HashToHashId of package s2k.
pub record OpenPgp : Type 0 where
  pub pub_key_algo_rsa : ℕ
  pub pub_key_algo_ecdsa : ℕ
  pub hash_to_hash_id : Hash → ℕ

module _ (pgp : OpenPgp) where
  -- The first switch; an algorithm that it does not name leaves 0.
  pub pk_algo : SignatureAlgorithm → ℕ
  pk_algo sha1_with_rsa = pgp.pub_key_algo_rsa
  pk_algo sha256_with_rsa = pgp.pub_key_algo_rsa
  pk_algo sha384_with_rsa = pgp.pub_key_algo_rsa
  pk_algo sha512_with_rsa = pgp.pub_key_algo_rsa
  pk_algo ecdsa_with_sha1 = pgp.pub_key_algo_ecdsa
  pk_algo ecdsa_with_sha256 = pgp.pub_key_algo_ecdsa
  pk_algo ecdsa_with_sha384 = pgp.pub_key_algo_ecdsa
  pk_algo ecdsa_with_sha512 = pgp.pub_key_algo_ecdsa
  pk_algo _ = 0

  -- The second switch.
  pub hash_algo : SignatureAlgorithm → ℕ
  hash_algo sha1_with_rsa = pgp.hash_to_hash_id Hash.sha1
  hash_algo ecdsa_with_sha1 = pgp.hash_to_hash_id Hash.sha1
  hash_algo sha256_with_rsa = pgp.hash_to_hash_id Hash.sha256
  hash_algo ecdsa_with_sha256 = pgp.hash_to_hash_id Hash.sha256
  hash_algo sha384_with_rsa = pgp.hash_to_hash_id Hash.sha384
  hash_algo ecdsa_with_sha384 = pgp.hash_to_hash_id Hash.sha384
  hash_algo sha512_with_rsa = pgp.hash_to_hash_id Hash.sha512
  hash_algo ecdsa_with_sha512 = pgp.hash_to_hash_id Hash.sha512
  hash_algo _ = 0

  -- "%s %d %d %02x %d %s"; the class is always 0. `now` is the time in seconds.
  pub emit_sig_created : (Bytes → Bytes) → ℤ → ℕ → Certificate → Bool → List Event
  emit_sig_created sha fd now cert is_detached = emitf fd sig_created (
      (if is_detached then codes "D" else codes "S")
      ++ (codes " "
          ++ (decimal (pk_algo cert.signature_algorithm)
              ++ (codes " "
                  ++ (decimal (hash_algo cert.signature_algorithm)
                      ++ (codes " 00 "
                          ++ (decimal now ++ (codes " " ++ cert_hex_fingerprint sha cert))))))))

pub emit_good_sig : (Bytes → Bytes) → ℤ → Certificate → List Event
emit_good_sig sha fd cert =
    emitf fd good_sig (cert_hex_fingerprint sha cert ++ (codes " " ++ cert.subject))

-- The subject is a method that is not called: `method_value` is what fmt prints for it.
pub emit_bad_sig : (Bytes → Bytes) → ℤ → Text → Certificate → List Event
emit_bad_sig sha fd method_value cert =
    emitf fd bad_sig (cert_hex_fingerprint sha cert ++ (codes " " ++ method_value))

pub emit_trust_fully : ℤ → List Event
emit_trust_fully fd = emitf fd trust_fully (codes "0 shell")
