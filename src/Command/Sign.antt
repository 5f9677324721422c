-- ===== src/Command/Sign.antt =====
-- commandSign of command_sign.go.
pub mod Outcomes
pub mod Correct
use git_kmssign.Base.{ℕ, ltb, Bool, List, [], ◌∷◌, length, Option, none, some, Bytes, if◌then◌else◌}
use git_kmssign.Base.Int.{ℤ}
use git_kmssign.Base.Text.{Text}
use git_kmssign.Cert.{Certificate, Identity}
use git_kmssign.Chain.{certs_for_signature}
use git_kmssign.Select.{Selection, bad_user_id_format, found, not_found, find_user_identity}
use git_kmssign.Status.{emit, begin_signing}
use git_kmssign.Status.Events.{signature_written}
use git_kmssign.Status.Signature.{emit_sig_created}
use git_kmssign.Command.{returned, Cms, System}
use git_kmssign.Command.Input.{read_file}
use git_kmssign.Command.Options.{Options}
use git_kmssign.Command.Run.{
  CommandError, bad_user_id, no_identity, no_certificate, no_signer, cannot_open_message,
  cannot_read_message, cannot_create, cannot_sign, cannot_timestamp, no_chain,
  cannot_set_certificates, cannot_serialize, cannot_write_signature, Run, done, failed, ◌>>=◌, ◌>>◌,
  write, return, or_fail, or_fail_call,
}

-- What is signed: the one file that is named, or else stdin.
pub message_of : System → List Text → Run Bytes
message_of sys (name ∷ []) = read_file sys name cannot_open_message cannot_read_message
message_of sys _ = or_fail sys.stdin cannot_read_message

-- The first two checks of commandSign.
pub selected : Selection → Run Identity
selected bad_user_id_format = failed [] bad_user_id
selected not_found = failed [] no_identity
selected (found ident) = return ident

module _ (sys : System) (cms : Cms) where
  -- The signature over a message, encoded: the calls from NewSignedData to ToDER.
  pub sign_message : Options → Identity → Certificate → Bytes → Bytes → Run Bytes
  sign_message o ident cert signer content = do
    sd ← or_fail_call (cms.new_signed_data content) cannot_create
    signed ← or_fail_call (cms.sign (cert ∷ []) signer sd) cannot_sign
    let shown = if o.detach_sign then cms.detached signed else signed
    stamped ←
        or_fail_call
          (if ltb 0 (length o.tsa) then cms.add_timestamps o.tsa shown else returned shown)
          cannot_timestamp
    chain ← or_fail ident.certificate_chain no_chain
    full ←
        or_fail_call (cms.set_certificates (certs_for_signature o.include_certs chain) stamped)
          cannot_set_certificates
    or_fail_call (cms.to_der full) cannot_serialize

  -- pem.Encode or stdout.Write.
  pub write_signature : Bool → Bytes → Run (Unit {0})
  write_signature armor der =
      if sys.can_write
      then write (signature_written (if armor then sys.pem_encode der else der) ∷ [])
      else failed [] cannot_write_signature

  -- Everything behind BEGIN_SIGNING.
  pub sign_with : Options → Identity → Run (Unit {0})
  sign_with o ident = do
    cert ← or_fail ident.certificate no_certificate
    signer ← or_fail ident.signer no_signer
    content ← message_of sys o.file_args
    der ← sign_message o ident cert signer content
    write (emit_sig_created sys.pgp sys.sha1 o.status_fd sys.now cert o.detach_sign)
    write_signature o.armor der

  pub command_sign : List Identity → Options → Run (Unit {0})
  command_sign idents o = do
    ident ← selected (find_user_identity sys.sha1 idents o.local_user)
    write (emit o.status_fd begin_signing)
    sign_with o ident
