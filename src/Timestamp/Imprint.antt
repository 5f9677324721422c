-- ===== src/Timestamp/Imprint.antt =====
-- MessageImprint of ietf-cms/timestamp/timestamp.go.
use git_kmssign.Base.{
  Bool, true, false, not, ◌&&◌, ◌||◌, length, ltb, Bytes, bytes_eq, if◌then◌else◌, Result, ok,
  ◌>>=◌, ◌>>◌, fail_if, or_err, unsupported, ◌==◌,
}
use git_kmssign.Cert.{Hash}
use git_kmssign.Oids.{look_up, digest_algorithm_to_crypto_hash, crypto_hash_to_digest_algorithm}
use git_kmssign.Protocol.{algorithm_of}
use git_kmssign.Protocol.Signing.{Crypto}
use git_kmssign.Timestamp.{MessageImprint}

module _ (crypto : Crypto) where
  -- The reader is one of bytes in memory, which does not fail.
  unfoldable pub new_message_imprint : Hash → Bytes → Result MessageImprint
  new_message_imprint hash data_read = do
    let digest_algorithm = crypto_hash_to_digest_algorithm hash
    fail_if (length digest_algorithm == 0) unsupported
    fail_if (not (crypto.available hash)) unsupported
    ok (record {
      hash_algorithm = algorithm_of digest_algorithm;
      hashed_message = crypto.digest hash data_read;
    })

  unfoldable pub imprint_hash : MessageImprint → Result Hash
  imprint_hash mi = do
    hash ← or_err (look_up digest_algorithm_to_crypto_hash mi.hash_algorithm.algorithm) unsupported
    fail_if (not (crypto.available hash)) unsupported
    ok hash

-- Whether Equal compares the parameters.
abbrev pub has_parameters : MessageImprint → Bool
has_parameters mi = ltb 0 (length mi.hash_algorithm.parameters.bytes)

unfoldable pub imprint_equal : MessageImprint → MessageImprint → Bool
imprint_equal mi other =
    if not (bytes_eq mi.hash_algorithm.algorithm other.hash_algorithm.algorithm)
    then false
    else if (has_parameters mi || has_parameters other)
        && not (
            bytes_eq mi.hash_algorithm.parameters.full_bytes
              other.hash_algorithm.parameters.full_bytes)
    then false
    else if not (bytes_eq mi.hashed_message other.hashed_message)
    then false
    else true
