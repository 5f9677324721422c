-- ===== src/Cert/Samples.antt =====
-- Certificates for the runs of the other modules.
use git_kmssign.Base.{Bytes, [], ◌∷◌, some}
use git_kmssign.Base.Int.{pos}
use git_kmssign.Base.Text.{Text, codes}
use git_kmssign.Cert.{
  Certificate, NameAttribute, Identity, sha256_with_rsa, ecdsa_with_sha384, PublicKeyAlgorithm,
}

-- A stand-in for a hash: a byte that the length does not decide, and the last bytes.
abbrev pub sample_sha1 : Bytes → Bytes
sample_sha1 b = 0x5c ∷ b

abbrev pub root : Certificate
root = record {
  raw = 1 ∷ 2 ∷ [];
  raw_issuer = 7 ∷ [];
  raw_subject = 7 ∷ [];
  serial_number = pos 1;
  subject = codes "CN=root";
  subject_names = [];
  email_addresses = [];
  issuing_certificate_url = [];
  extensions = [];
  signature_algorithm = sha256_with_rsa;
  public_key_algorithm = PublicKeyAlgorithm.rsa;
  public_key = 1 ∷ [];
  not_before = pos 0;
  not_after = pos 100;
}

abbrev pub alice : Text
alice = codes "a@b.c"

abbrev pub common_name : NameAttribute
common_name = record { kind = 2 ∷ 5 ∷ 4 ∷ 3 ∷ []; value = some alice }

-- Issued by the root, which can be fetched; its CN is an address.
abbrev pub leaf : Certificate
leaf = record {
  raw = 3 ∷ 4 ∷ [];
  raw_issuer = 7 ∷ [];
  raw_subject = 8 ∷ [];
  serial_number = pos 2;
  subject = codes "CN=a@b.c";
  subject_names = common_name ∷ [];
  email_addresses = [];
  issuing_certificate_url = codes "http://ca" ∷ [];
  extensions = [];
  signature_algorithm = ecdsa_with_sha384;
  public_key_algorithm = PublicKeyAlgorithm.ecdsa;
  public_key = 2 ∷ [];
  not_before = pos 0;
  not_after = pos 100;
}

-- A certificate with an empty alternative name.
abbrev pub blank : Certificate
blank = record leaf { email_addresses = [] ∷ [] }

abbrev pub identity : Certificate → Identity
identity cert = record {
  certificate = some cert;
  certificate_chain = some (cert ∷ root ∷ []);
  signer = some cert.public_key;
}
