-- ===== src/Command/ListKeys.antt =====
-- commandListKeys of list_keys_command.go.
pub mod Correct
use git_kmssign.Base.{
  Bool, true, false, List, [], ◌∷◌, ◌++◌, Option, none, some, Bytes, if◌then◌else◌,
}
use git_kmssign.Base.Text.{Text, codes}
use git_kmssign.Cert.{Certificate, Identity}
use git_kmssign.Email.{cert_emails}
use git_kmssign.Fingerprint.{cert_hex_fingerprint}
use git_kmssign.Status.Events.{Event, printed, message}

-- How the libraries print a certificate's fields, and the error of Identity.Certificate.
pub record Printer : Type 0 where
  pub serial_number : Certificate → Text
  pub signature_algorithm : Certificate → Text
  pub validity : Certificate → Text
  pub issuer : Certificate → Text
  pub subject : Certificate → Text
  pub certificate_error : Identity → Text

-- strings.Join.
pub join : List Text → Text → Text
join [] sep = []
join (t ∷ []) sep = t
join (t ∷ u ∷ ts) sep = t ++ (sep ++ join (u ∷ ts) sep)

-- fmt.Println(label, value)
pub line : Text → Text → Event
line label value = printed (label ++ (codes " " ++ (value ++ codes "\n")))

module _ (sha1 : Bytes → Bytes) (printer : Printer) where
  pub describe : Certificate → List Event
  describe cert =
      line (codes "       ID:") (cert_hex_fingerprint sha1 cert)
      ∷ line (codes "      S/N:") (printer.serial_number cert)
      ∷ line (codes "Algorithm:") (printer.signature_algorithm cert)
      ∷ line (codes " Validity:") (printer.validity cert)
      ∷ line (codes "   Issuer:") (printer.issuer cert)
      ∷ line (codes "  Subject:") (printer.subject cert)
      ∷ line (codes "   Emails:") (join (cert_emails cert) (codes ", "))
      ∷ []

  pub list_identity : Identity → List Event
  list_identity ident = elim ident.certificate [
    | none ↦ message (codes "WARNING: " ++ (printer.certificate_error ident ++ codes "\n")) ∷ []
    | some cert ↦ describe cert
  ]

  -- The loop, with j > 0 as a flag.
  pub list_identities : Bool → List Identity → List Event
  list_identities later [] = []
  list_identities later (ident ∷ idents) =
      (if later then printed (codes "\n") ∷ [] else [])
      ++ (list_identity ident ++ list_identities true idents)

  -- It always returns nil.
  pub command_list_keys : List Identity → List Event
  command_list_keys idents = list_identities false idents
