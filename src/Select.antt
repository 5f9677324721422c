-- ===== src/Select.antt =====
-- command_sign.go: findUserIdentity, which picks the identity that --local-user names.
pub mod Correct
mod Tests
use git_kmssign.Base.{
  Bool, List, [], ◌∷◌, Bytes, length, Option, none, some, ◌==◌, ◌&&◌, ◌||◌, if◌then◌else◌,
}
use git_kmssign.Base.Text.{Text, contains_rune}
use git_kmssign.Cert.{Certificate, Identity}
use git_kmssign.Email.{normalize_email, cert_has_email}
use git_kmssign.Fingerprint.{normalize_fingerprint, cert_has_fingerprint}

-- The two results: the error "bad user-id format", or an identity or nil.
pub data Selection : Type 0 where
  bad_user_id_format : Selection
  found : Identity → Selection
  not_found : Selection

-- The email and the fingerprint that are looked for.
pub wanted : Text → Text × Bytes
wanted local_user =
    if contains_rune local_user b'@'
    then (normalize_email local_user, [])
    else ([], normalize_fingerprint local_user)

module _ (sha1 : Bytes → Bytes) where
  pub has_user_id : Text → Bytes → Option Certificate → Bool
  has_user_id email fpr none = Bool.false
  has_user_id email fpr (some cert) =
      cert_has_email cert email || cert_has_fingerprint sha1 cert fpr

  -- The loop over the identities of the store; those without a certificate are passed over.
  pub first_identity : Text → Bytes → List Identity → Selection
  unfolding has_user_id
  first_identity email fpr [] = not_found
  first_identity email fpr (ident ∷ idents) =
      if has_user_id email fpr ident.certificate
      then found ident
      else first_identity email fpr idents

  pub find_user_identity : List Identity → Text → Selection
  find_user_identity idents local_user =
      let (email, fpr) = wanted local_user in
      if length email == 0 && length fpr == 0
      then bad_user_id_format
      else first_identity email fpr idents
