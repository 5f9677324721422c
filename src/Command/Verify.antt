-- ===== src/Command/Verify.antt =====
-- command_verify.go.
pub mod Correct
use git_kmssign.Base.{
  ℕ, zero, suc, ltb, ◌==◌, Bool, List, [], ◌∷◌, ◌++◌, length, Option, none, some, Bytes, bytes_eq,
  if◌then◌else◌,
}
use git_kmssign.Base.Text.{Text, codes}
use git_kmssign.Cert.{Certificate, Identity}
use git_kmssign.Fingerprint.{cert_hex_fingerprint}
use git_kmssign.Status.{emit, new_sig, err_sig}
use git_kmssign.Status.Events.{message}
use git_kmssign.Status.Signature.{emit_good_sig, emit_bad_sig, emit_trust_fully}
use git_kmssign.Command.{VerifyOptions, Chains, Verdict, verified, refused, broken, Cms, System}
use git_kmssign.Command.Options.{Options}
use git_kmssign.Command.Input.{read_file}
use git_kmssign.Command.Run.{
  CommandError, cannot_open_message, cannot_open_signature, cannot_read_signature,
  cannot_read_message, cannot_parse_signature, verification_failed, Run, done, failed, crashed,
  or_fail_call, ◌>>=◌, ◌>>◌, write, return, or_fail, or_crash,
}

-- chains[0][0][0]
abbrev pub leaf_of : Chains → Option Certificate
leaf_of (((cert ∷ _) ∷ _) ∷ _) = some cert
leaf_of _ = none

-- The certificates of the identities, those without one left out.
pub store_certificates : List Identity → List Certificate
store_certificates [] = []
store_certificates (ident ∷ idents) = elim ident.certificate [
  | none ↦ store_certificates idents
  | some cert ↦ cert ∷ store_certificates idents
]

module _ (sys : System) where
  -- The system's roots, or those of gocertifi, or none.
  pub base_roots : Option (List Certificate) → Option (List Certificate) → List Certificate
  base_roots (some roots) _ = roots
  base_roots none (some roots) = roots
  base_roots none none = []

  unfoldable pub verify_opts : List Identity → VerifyOptions
  verify_opts idents = record {
    roots = base_roots sys.system_cert_pool sys.ca_certs ++ store_certificates idents;
  }

  -- The bytes of a PEM block, if there is one.
  unfoldable pub decode_pem : Bytes → Bytes
  decode_pem buf = elim (sys.pem_decode buf) [ none ↦ buf | some der ↦ der ]

  -- What both commands do with the result of Verify or VerifyDetached.
  unfoldable pub report : Options → Verdict → Run (Unit {0})
  report o broken = crashed []
  report o (refused []) = do write (emit o.status_fd err_sig); failed [] verification_failed
  report o (refused (c ∷ cs)) = do
    cert ← or_crash (leaf_of (c ∷ cs))
    write (emit_bad_sig sys.sha1 o.status_fd sys.method_value cert)
    failed [] verification_failed
  report o (verified chains) = do
    cert ← or_crash (leaf_of chains)
    write (
        message (
          codes "smimesign: Signature made using certificate ID 0x"
          ++ (cert_hex_fingerprint sys.sha1 cert ++ codes "\n"))
        ∷ [])
    write (emit_good_sig sys.sha1 o.status_fd cert)
    write
        (message (codes "smimesign: Good signature from \"" ++ (cert.subject ++ codes "\"\n")) ∷ [])
    write (emit_trust_fully o.status_fd)

  -- The attached signature: the one file that is named, or else stdin.
  unfoldable pub signature_of : List Text → Run Bytes
  signature_of (name ∷ []) = read_file sys name cannot_open_signature cannot_read_signature
  signature_of _ = or_fail sys.stdin cannot_read_signature

  -- The signed data. The error of os.Open is dropped, and reading the missing file then fails.
  pub signed_data_of : Text → Run Bytes
  signed_data_of name =
      if bytes_eq name (codes "-")
      then or_fail sys.stdin cannot_read_message
      else read_file sys name cannot_read_message cannot_read_message

  module _ (cms : Cms) where
    unfoldable pub verify_attached : List Identity → Options → Run (Unit {0})
    verify_attached idents o = do
      buf ← signature_of o.file_args
      sd ← or_fail_call (cms.parse_signed_data (decode_pem buf)) cannot_parse_signature
      report o (cms.verify (verify_opts idents) sd)

    pub verify_detached : List Identity → Options → Text → Text → Run (Unit {0})
    verify_detached idents o signature_name data_name = do
      buf ← read_file sys signature_name cannot_open_signature cannot_read_signature
      sd ← or_fail_call (cms.parse_signed_data (decode_pem buf)) cannot_parse_signature
      content ← signed_data_of data_name
      report o (cms.verify_detached content (verify_opts idents) sd)

    -- len(fileArgs) < 2 is an attached signature.
    unfoldable pub verify_files : List Identity → Options → List Text → Run (Unit {0})
    verify_files idents o (signature_name ∷ data_name ∷ _) =
        verify_detached idents o signature_name data_name
    verify_files idents o _ = verify_attached idents o

    unfoldable pub command_verify : List Identity → Options → Run (Unit {0})
    command_verify idents o = do write (emit o.status_fd new_sig); verify_files idents o o.file_args
