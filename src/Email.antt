-- ===== src/Email.antt =====
-- utils.go: email addresses of user ids and of certificates.
pub mod Pattern
pub mod Correct
mod Tests
use git_kmssign.Base.{
  ℕ, Bool, true, false, List, [], ◌∷◌, ◌++◌, length, Option, none, some, ltb, ◌==◌, ◌&&◌, ◌||◌,
  bytes_eq, if◌then◌else◌,
}
use git_kmssign.Base.Text.{Text, contains_rune}
use git_kmssign.Cert.{Oid, Certificate, NameAttribute}
use git_kmssign.UserId.{parse_user_id}
use git_kmssign.Email.Pattern.{matches_email}

pub normalize_email : Text → Text
normalize_email s =
    let (name, comment, email) = parse_user_id s in
    if ltb 0 (length email) then email else if contains_rune name b'@' then name else []

abbrev pub oid_email_address : Oid
oid_email_address = 1 ∷ 2 ∷ 840 ∷ 113549 ∷ 1 ∷ 9 ∷ 1 ∷ []

abbrev pub oid_common_name : Oid
oid_common_name = 2 ∷ 5 ∷ 4 ∷ 3 ∷ []

-- name.Type is one of the two.
pub is_email_kind : Oid → Bool
is_email_kind kind = bytes_eq kind oid_email_address || bytes_eq kind oid_common_name

-- One round of the loop over cert.Subject.Names; a value that is no string is `none`.
pub add_email : List Text → Oid → Option Text → List Text
add_email emails kind none = emails
add_email emails kind (some email) =
    if is_email_kind kind && matches_email email then emails ++ (email ∷ []) else emails

-- The loop, which appends to `emails`.
pub append_subject_emails : List Text → List NameAttribute → List Text
append_subject_emails emails [] = emails
append_subject_emails emails (name ∷ names) =
    append_subject_emails (add_email emails name.kind name.value) names

pub cert_emails : Certificate → List Text
cert_emails cert = append_subject_emails cert.email_addresses cert.subject_names

pub contains_text : List Text → Text → Bool
contains_text [] email = false
contains_text (other ∷ others) email = bytes_eq other email || contains_text others email

pub cert_has_email : Certificate → Text → Bool
cert_has_email cert email = contains_text (cert_emails cert) email
