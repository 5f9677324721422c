-- ===== src/Cms/Options.antt =====
-- What ietf-cms/verify.go hands to crypto/x509.
use git_kmssign.Base.{ℕ, Bool, List, Option, Bytes, ◌*◌, ◌-◌}
use git_kmssign.Base.Int.{ℤ, negsuc}
use git_kmssign.Cert.{Certificate, SignatureAlgorithm}

-- x509.ExtKeyUsage, the values that the source names.
pub data ExtKeyUsage : Type 0 where
  any_usage time_stamping : ExtKeyUsage
  other_usage : ℕ → ExtKeyUsage

-- x509.CertPool.
abbrev pub Pool : Type 0
Pool = List Certificate

-- x509.VerifyOptions, the fields that the source sets: a nil pool is `none`, and the time is in
-- nanoseconds since the epoch.
pub record VerifyOptions : Type 0 where
  pub roots : Option Pool
  pub intermediates : Option Pool
  pub key_usages : List ExtKeyUsage
  pub current_time : ℤ

-- The zero time.Time, 62135596800 seconds before the epoch.
abbrev pub zero_time : ℤ
zero_time = negsuc (62135596800 * 1000000000 - 1)

-- The chains that one certificate's Verify returns.
abbrev pub CertChains : Type 0
CertChains = List (List Certificate)

-- crypto/x509: ParseCertificate, and CheckSignature and Verify of a certificate. `false` and `none` are
-- errors.
pub record X509 : Type 0 where
  pub parse_certificate : Bytes → Option Certificate
  pub check_signature : Certificate → SignatureAlgorithm → Bytes → Bytes → Bool
  pub verify : Certificate → VerifyOptions → Option CertChains
