-- ===== src/Oids.antt =====
-- ietf-cms/oid/oid.go: object identifiers, and the tables between them and the algorithms of crypto/x509
-- and crypto. The keys of the tables are the identifiers, where the source writes them as strings.
pub mod Correct
use git_kmssign.Base.{ℕ, List, [], ◌∷◌, Option, none, some, bytes_eq, if◌then◌else◌}
use git_kmssign.Cert.{
  Oid, Hash, PublicKeyAlgorithm, SignatureAlgorithm, sha1_with_rsa, md5_with_rsa, sha256_with_rsa,
  sha384_with_rsa, sha512_with_rsa, ecdsa_with_sha1, ecdsa_with_sha256, ecdsa_with_sha384,
  ecdsa_with_sha512, dsa_with_sha1, unknown_signature_algorithm,
}

abbrev pub content_type_data : Oid
content_type_data = 1 ∷ 2 ∷ 840 ∷ 113549 ∷ 1 ∷ 7 ∷ 1 ∷ []

abbrev pub content_type_signed_data : Oid
content_type_signed_data = 1 ∷ 2 ∷ 840 ∷ 113549 ∷ 1 ∷ 7 ∷ 2 ∷ []

abbrev pub content_type_tst_info : Oid
content_type_tst_info = 1 ∷ 2 ∷ 840 ∷ 113549 ∷ 1 ∷ 9 ∷ 16 ∷ 1 ∷ 4 ∷ []

abbrev pub attribute_content_type : Oid
attribute_content_type = 1 ∷ 2 ∷ 840 ∷ 113549 ∷ 1 ∷ 9 ∷ 3 ∷ []

abbrev pub attribute_message_digest : Oid
attribute_message_digest = 1 ∷ 2 ∷ 840 ∷ 113549 ∷ 1 ∷ 9 ∷ 4 ∷ []

abbrev pub attribute_signing_time : Oid
attribute_signing_time = 1 ∷ 2 ∷ 840 ∷ 113549 ∷ 1 ∷ 9 ∷ 5 ∷ []

abbrev pub attribute_time_stamp_token : Oid
attribute_time_stamp_token = 1 ∷ 2 ∷ 840 ∷ 113549 ∷ 1 ∷ 9 ∷ 16 ∷ 2 ∷ 14 ∷ []

abbrev pub public_key_algorithm_rsa : Oid
public_key_algorithm_rsa = 1 ∷ 2 ∷ 840 ∷ 113549 ∷ 1 ∷ 1 ∷ 1 ∷ []

abbrev pub public_key_algorithm_ecdsa : Oid
public_key_algorithm_ecdsa = 1 ∷ 2 ∷ 840 ∷ 10045 ∷ 2 ∷ 1 ∷ []

abbrev pub digest_algorithm_sha1 : Oid
digest_algorithm_sha1 = 1 ∷ 3 ∷ 14 ∷ 3 ∷ 2 ∷ 26 ∷ []

abbrev pub digest_algorithm_md5 : Oid
digest_algorithm_md5 = 1 ∷ 2 ∷ 840 ∷ 113549 ∷ 2 ∷ 5 ∷ []

abbrev pub digest_algorithm_sha256 : Oid
digest_algorithm_sha256 = 2 ∷ 16 ∷ 840 ∷ 1 ∷ 101 ∷ 3 ∷ 4 ∷ 2 ∷ 1 ∷ []

abbrev pub digest_algorithm_sha384 : Oid
digest_algorithm_sha384 = 2 ∷ 16 ∷ 840 ∷ 1 ∷ 101 ∷ 3 ∷ 4 ∷ 2 ∷ 2 ∷ []

abbrev pub digest_algorithm_sha512 : Oid
digest_algorithm_sha512 = 2 ∷ 16 ∷ 840 ∷ 1 ∷ 101 ∷ 3 ∷ 4 ∷ 2 ∷ 3 ∷ []

abbrev pub signature_algorithm_md2_with_rsa : Oid
signature_algorithm_md2_with_rsa = 1 ∷ 2 ∷ 840 ∷ 113549 ∷ 1 ∷ 1 ∷ 2 ∷ []

abbrev pub signature_algorithm_md5_with_rsa : Oid
signature_algorithm_md5_with_rsa = 1 ∷ 2 ∷ 840 ∷ 113549 ∷ 1 ∷ 1 ∷ 4 ∷ []

abbrev pub signature_algorithm_sha1_with_rsa : Oid
signature_algorithm_sha1_with_rsa = 1 ∷ 2 ∷ 840 ∷ 113549 ∷ 1 ∷ 1 ∷ 5 ∷ []

abbrev pub signature_algorithm_sha256_with_rsa : Oid
signature_algorithm_sha256_with_rsa = 1 ∷ 2 ∷ 840 ∷ 113549 ∷ 1 ∷ 1 ∷ 11 ∷ []

abbrev pub signature_algorithm_sha384_with_rsa : Oid
signature_algorithm_sha384_with_rsa = 1 ∷ 2 ∷ 840 ∷ 113549 ∷ 1 ∷ 1 ∷ 12 ∷ []

abbrev pub signature_algorithm_sha512_with_rsa : Oid
signature_algorithm_sha512_with_rsa = 1 ∷ 2 ∷ 840 ∷ 113549 ∷ 1 ∷ 1 ∷ 13 ∷ []

abbrev pub signature_algorithm_rsa_pss : Oid
signature_algorithm_rsa_pss = 1 ∷ 2 ∷ 840 ∷ 113549 ∷ 1 ∷ 1 ∷ 10 ∷ []

abbrev pub signature_algorithm_dsa_with_sha1 : Oid
signature_algorithm_dsa_with_sha1 = 1 ∷ 2 ∷ 840 ∷ 10040 ∷ 4 ∷ 3 ∷ []

abbrev pub signature_algorithm_dsa_with_sha256 : Oid
signature_algorithm_dsa_with_sha256 = 2 ∷ 16 ∷ 840 ∷ 1 ∷ 101 ∷ 3 ∷ 4 ∷ 3 ∷ 2 ∷ []

abbrev pub signature_algorithm_ecdsa_with_sha1 : Oid
signature_algorithm_ecdsa_with_sha1 = 1 ∷ 2 ∷ 840 ∷ 10045 ∷ 4 ∷ 1 ∷ []

abbrev pub signature_algorithm_ecdsa_with_sha256 : Oid
signature_algorithm_ecdsa_with_sha256 = 1 ∷ 2 ∷ 840 ∷ 10045 ∷ 4 ∷ 3 ∷ 2 ∷ []

abbrev pub signature_algorithm_ecdsa_with_sha384 : Oid
signature_algorithm_ecdsa_with_sha384 = 1 ∷ 2 ∷ 840 ∷ 10045 ∷ 4 ∷ 3 ∷ 3 ∷ []

abbrev pub signature_algorithm_ecdsa_with_sha512 : Oid
signature_algorithm_ecdsa_with_sha512 = 1 ∷ 2 ∷ 840 ∷ 10045 ∷ 4 ∷ 3 ∷ 4 ∷ []

abbrev pub signature_algorithm_iso_sha1_with_rsa : Oid
signature_algorithm_iso_sha1_with_rsa = 1 ∷ 3 ∷ 14 ∷ 3 ∷ 2 ∷ 29 ∷ []

abbrev pub extension_subject_key_identifier : Oid
extension_subject_key_identifier = 2 ∷ 5 ∷ 29 ∷ 14 ∷ []

-- A table, and looking up a key in it.
abbrev pub Table : Type 0 → Type 0
Table A = List (Oid × A)

unfoldable pub look_up : {A : Type 0} → Table A → Oid → Option A
look_up [] key = none
look_up ((k, a) ∷ rows) key = if bytes_eq k key then some a else look_up rows key

abbrev pub digest_algorithm_to_crypto_hash : Table Hash
digest_algorithm_to_crypto_hash =
    (digest_algorithm_sha1, Hash.sha1)
    ∷ (digest_algorithm_md5, Hash.md5)
    ∷ (digest_algorithm_sha256, Hash.sha256)
    ∷ (digest_algorithm_sha384, Hash.sha384)
    ∷ (digest_algorithm_sha512, Hash.sha512)
    ∷ []

abbrev pub rsa_signature_algorithms : Table SignatureAlgorithm
rsa_signature_algorithms =
    (digest_algorithm_sha1, sha1_with_rsa)
    ∷ (digest_algorithm_md5, md5_with_rsa)
    ∷ (digest_algorithm_sha256, sha256_with_rsa)
    ∷ (digest_algorithm_sha384, sha384_with_rsa)
    ∷ (digest_algorithm_sha512, sha512_with_rsa)
    ∷ []

abbrev pub ecdsa_signature_algorithms : Table SignatureAlgorithm
ecdsa_signature_algorithms =
    (digest_algorithm_sha1, ecdsa_with_sha1)
    ∷ (digest_algorithm_sha256, ecdsa_with_sha256)
    ∷ (digest_algorithm_sha384, ecdsa_with_sha384)
    ∷ (digest_algorithm_sha512, ecdsa_with_sha512)
    ∷ []

-- A key that is missing gives an empty table.
unfoldable pub public_key_and_digest_algorithm_to_x509_signature_algorithm :
    Oid → Table SignatureAlgorithm
public_key_and_digest_algorithm_to_x509_signature_algorithm key =
    if bytes_eq public_key_algorithm_rsa key
    then rsa_signature_algorithms
    else if bytes_eq public_key_algorithm_ecdsa key
    then ecdsa_signature_algorithms
    else []

abbrev pub signature_algorithm_to_x509_signature_algorithm : Table SignatureAlgorithm
signature_algorithm_to_x509_signature_algorithm =
    (signature_algorithm_sha1_with_rsa, sha1_with_rsa)
    ∷ (signature_algorithm_md5_with_rsa, md5_with_rsa)
    ∷ (signature_algorithm_sha256_with_rsa, sha256_with_rsa)
    ∷ (signature_algorithm_sha384_with_rsa, sha384_with_rsa)
    ∷ (signature_algorithm_sha512_with_rsa, sha512_with_rsa)
    ∷ (signature_algorithm_ecdsa_with_sha1, ecdsa_with_sha1)
    ∷ (signature_algorithm_ecdsa_with_sha256, ecdsa_with_sha256)
    ∷ (signature_algorithm_ecdsa_with_sha384, ecdsa_with_sha384)
    ∷ (signature_algorithm_ecdsa_with_sha512, ecdsa_with_sha512)
    ∷ (signature_algorithm_dsa_with_sha1, dsa_with_sha1)
    ∷ []

abbrev pub rsa_oids : Table Oid
rsa_oids =
    (digest_algorithm_sha1, signature_algorithm_sha1_with_rsa)
    ∷ (digest_algorithm_md5, signature_algorithm_md5_with_rsa)
    ∷ (digest_algorithm_sha256, signature_algorithm_sha256_with_rsa)
    ∷ (digest_algorithm_sha384, signature_algorithm_sha384_with_rsa)
    ∷ (digest_algorithm_sha512, signature_algorithm_sha512_with_rsa)
    ∷ []

abbrev pub ecdsa_oids : Table Oid
ecdsa_oids =
    (digest_algorithm_sha1, signature_algorithm_ecdsa_with_sha1)
    ∷ (digest_algorithm_sha256, signature_algorithm_ecdsa_with_sha256)
    ∷ (digest_algorithm_sha384, signature_algorithm_ecdsa_with_sha384)
    ∷ (digest_algorithm_sha512, signature_algorithm_ecdsa_with_sha512)
    ∷ []

unfoldable pub x509_public_key_and_digest_algorithm_to_signature_algorithm :
    PublicKeyAlgorithm → Table Oid
x509_public_key_and_digest_algorithm_to_signature_algorithm PublicKeyAlgorithm.rsa = rsa_oids
x509_public_key_and_digest_algorithm_to_signature_algorithm PublicKeyAlgorithm.ecdsa = ecdsa_oids
x509_public_key_and_digest_algorithm_to_signature_algorithm _ = []

unfoldable pub x509_signature_algorithm_to_digest_algorithm : SignatureAlgorithm → Option Oid
x509_signature_algorithm_to_digest_algorithm sha1_with_rsa = some digest_algorithm_sha1
x509_signature_algorithm_to_digest_algorithm md5_with_rsa = some digest_algorithm_md5
x509_signature_algorithm_to_digest_algorithm sha256_with_rsa = some digest_algorithm_sha256
x509_signature_algorithm_to_digest_algorithm sha384_with_rsa = some digest_algorithm_sha384
x509_signature_algorithm_to_digest_algorithm sha512_with_rsa = some digest_algorithm_sha512
x509_signature_algorithm_to_digest_algorithm ecdsa_with_sha1 = some digest_algorithm_sha1
x509_signature_algorithm_to_digest_algorithm ecdsa_with_sha256 = some digest_algorithm_sha256
x509_signature_algorithm_to_digest_algorithm ecdsa_with_sha384 = some digest_algorithm_sha384
x509_signature_algorithm_to_digest_algorithm ecdsa_with_sha512 = some digest_algorithm_sha512
x509_signature_algorithm_to_digest_algorithm _ = none

unfoldable pub x509_signature_algorithm_to_public_key_algorithm : SignatureAlgorithm → Option Oid
x509_signature_algorithm_to_public_key_algorithm sha1_with_rsa = some public_key_algorithm_rsa
x509_signature_algorithm_to_public_key_algorithm md5_with_rsa = some public_key_algorithm_rsa
x509_signature_algorithm_to_public_key_algorithm sha256_with_rsa = some public_key_algorithm_rsa
x509_signature_algorithm_to_public_key_algorithm sha384_with_rsa = some public_key_algorithm_rsa
x509_signature_algorithm_to_public_key_algorithm sha512_with_rsa = some public_key_algorithm_rsa
x509_signature_algorithm_to_public_key_algorithm ecdsa_with_sha1 = some public_key_algorithm_ecdsa
x509_signature_algorithm_to_public_key_algorithm ecdsa_with_sha256 = some public_key_algorithm_ecdsa
x509_signature_algorithm_to_public_key_algorithm ecdsa_with_sha384 = some public_key_algorithm_ecdsa
x509_signature_algorithm_to_public_key_algorithm ecdsa_with_sha512 = some public_key_algorithm_ecdsa
x509_signature_algorithm_to_public_key_algorithm _ = none

unfoldable pub crypto_hash_to_digest_algorithm : Hash → Oid
crypto_hash_to_digest_algorithm Hash.sha1 = digest_algorithm_sha1
crypto_hash_to_digest_algorithm Hash.md5 = digest_algorithm_md5
crypto_hash_to_digest_algorithm Hash.sha256 = digest_algorithm_sha256
crypto_hash_to_digest_algorithm Hash.sha384 = digest_algorithm_sha384
crypto_hash_to_digest_algorithm Hash.sha512 = digest_algorithm_sha512
