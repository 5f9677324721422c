-- ===== src/Command/Verify/Correct.antt =====
-- What commandVerify of command_verify.go reports.
use git_kmssign.Base.{
  ◌≡◌, sym, subst, arith, Bool-cases, inl, inr, ◌⊎◌, bytes_eq, ◌<◌, length, refl, List, [], ◌∷◌,
  ◌++◌, none, some, Bytes, bytes_eq_iff, append-nil,
}
use git_kmssign.Base.Text.{Text, codes}
use git_kmssign.Cert.{Certificate, Identity}
use git_kmssign.Fingerprint.{cert_hex_fingerprint}
use git_kmssign.Status.{emit, new_sig, err_sig}
use git_kmssign.Status.Events.{Event, message}
use git_kmssign.Status.Signature.{emit_good_sig, emit_trust_fully}
use git_kmssign.Command.{
  VerifyOptions, Chains, Verdict, returned, erred, raised, verified, refused, broken, Cms, System,
}
use git_kmssign.Command.Options.{Options}
use git_kmssign.Command.Input.{read_file, read_file-Quiet, read_file-eq-done}
use git_kmssign.Command.Run.{
  CommandError, cannot_open_signature, cannot_read_signature, cannot_read_message, after_events,
  Quiet, Quiet-bind, Quiet-or_fail, or_fail-eq-done, cannot_parse_signature, verification_failed,
  Run, done, failed, crashed, or_fail_call-bind,
}
use git_kmssign.Command.Verify.{
  leaf_of, verify_opts, decode_pem, report, signature_of, signed_data_of, verify_attached,
  verify_detached, verify_files, command_verify,
}

-- A verdict as package cms gives it: an error comes with no chains, and each chain that is returned
-- without one starts with a certificate; or a panic.
pub data IsVerdict : Verdict → Type 0 where
  with_leaf :
      {chains : Chains} (cert : Certificate)
      → leaf_of chains ≡ some cert
      → IsVerdict (verified chains)
  with_error : IsVerdict (refused [])
  with_panic : IsVerdict broken

-- What is written for a good signature.
abbrev pub good_events : System → Options → Certificate → List Event
good_events sys o cert =
    (message (
        codes "smimesign: Signature made using certificate ID 0x"
        ++ (cert_hex_fingerprint sys.sha1 cert ++ codes "\n"))
      ∷ [])
    ++ (emit_good_sig sys.sha1 o.status_fd cert
        ++ ((message (codes "smimesign: Good signature from \"" ++ (cert.subject ++ codes "\"\n"))
              ∷ [])
            ++ emit_trust_fully o.status_fd))

-- The laws of package cms that the command stands on.
pub record CmsLaws (cms : Cms) : Type 1 where
  pub verify_lem : (opts : VerifyOptions) (sd : cms.SignedData) → IsVerdict (cms.verify opts sd)
  pub verify_detached_lem :
      (content : Bytes) (opts : VerifyOptions) (sd : cms.SignedData)
      → IsVerdict (cms.verify_detached content opts sd)

module _ (sys : System) (cms : Cms) (idents : List Identity) where
  -- The verdict on the signature that the arguments name, read as PEM or DER: on its own data where
  -- there are fewer than two arguments, and on the second argument's data otherwise.
  pub data Judged : List Text → Verdict → Type 0 where
    on_attached :
        {files : List Text} {buf : Bytes} (sd : cms.SignedData)
        → length files < 2
        → signature_of sys files ≡ done [] buf
        → cms.parse_signed_data (decode_pem sys buf) ≡ returned sd
        → Judged files (cms.verify (verify_opts sys idents) sd)
    on_detached :
        {name data_name : Text} {files : List Text} {buf content : Bytes} (sd : cms.SignedData)
        → read_file sys name cannot_open_signature cannot_read_signature ≡ done [] buf
        → cms.parse_signed_data (decode_pem sys buf) ≡ returned sd
        → signed_data_of sys data_name ≡ done [] content
        → Judged
            (name ∷ data_name ∷ files)
            (cms.verify_detached content (verify_opts sys idents) sd)

  -- The signature that the arguments name is bytes on which the parsing panics.
  pub data Unparsed : List Text → Type 0 where
    attached_raises :
        {files : List Text} {buf : Bytes}
        → signature_of sys files ≡ done [] buf
        → cms.parse_signed_data (decode_pem sys buf) ≡ raised
        → Unparsed files
    detached_raises :
        {name data_name : Text} {files : List Text} {buf : Bytes}
        → read_file sys name cannot_open_signature cannot_read_signature ≡ done [] buf
        → cms.parse_signed_data (decode_pem sys buf) ≡ raised
        → Unparsed (name ∷ data_name ∷ files)

  -- The bytes of the signature: of the first file that is named, or of stdin.
  pub data HasSignature : List Text → Bytes → Type 0 where
    signature_in_file :
        {name : Text} {files : List Text} {buf : Bytes}
        → sys.open_file name ≡ some (some buf)
        → HasSignature (name ∷ files) buf
    signature_on_stdin : {buf : Bytes} → sys.stdin ≡ some buf → HasSignature [] buf

  -- What cannot be read or parsed, and the error for it.
  pub data Unreadable : List Text → CommandError → Type 0 where
    signature_not_opened :
        {name : Text} {files : List Text}
        → sys.open_file name ≡ none
        → Unreadable (name ∷ files) cannot_open_signature
    signature_not_read :
        {name : Text} {files : List Text}
        → sys.open_file name ≡ some none
        → Unreadable (name ∷ files) cannot_read_signature
    stdin_not_read : sys.stdin ≡ none → Unreadable [] cannot_read_signature
    signature_not_parsed :
        {files : List Text} {buf : Bytes}
        → HasSignature files buf
        → cms.parse_signed_data (decode_pem sys buf) ≡ erred
        → Unreadable files cannot_parse_signature
    message_stdin_not_read :
        {name data_name : Text} {files : List Text}
        → data_name ≡ codes "-"
        → sys.stdin ≡ none
        → Unreadable (name ∷ data_name ∷ files) cannot_read_message
    message_not_read :
        {name data_name : Text} {files : List Text}
        → ((sys.open_file data_name ≡ none) ⊎ (sys.open_file data_name ≡ some none))
        → Unreadable (name ∷ data_name ∷ files) cannot_read_message

  -- The ways in which a verification ends, behind the events `before`: the signature is good, or it is
  -- not, or something that is needed cannot be read, or package cms panics.
  pub data Reported (o : Options) (before : List Event) : Run (Unit {0}) → Type 0 where
    good :
        {chains : Chains} (cert : Certificate)
        → Judged o.file_args (verified chains)
        → leaf_of chains ≡ some cert
        → Reported o before (done (before ++ good_events sys o cert) tt)
    not_good :
        Judged o.file_args (refused [])
        → Reported o before (failed (before ++ emit o.status_fd err_sig) verification_failed)
    unreadable : (e : CommandError) → Unreadable o.file_args e → Reported o before (failed before e)
    panics : Unparsed o.file_args ⊎ Judged o.file_args broken → Reported o before (crashed before)

  Reported-after :
      (o : Options) (before : List Event) {r : Run (Unit {0})}
      → Reported o [] r
      → Reported o before (after_events before r)
  Reported-after o before (good cert j e) = good cert j e
  Reported-after o before (not_good j) = not_good j
  Reported-after o before (unreadable e u) = rw append-nil (unreadable e u)
  Reported-after o before (panics p) = rw append-nil (panics p)

  report-Reported :
      (o : Options) (v : Verdict)
      → IsVerdict v
      → Judged o.file_args v
      → Reported o [] (report sys o v)
  unfolding report
  report-Reported o (refused _) with_error j = rw append-nil (not_good j)
  report-Reported o broken with_panic j = panics (inr j)
  report-Reported o (verified chains) (with_leaf cert e) j = rw e (good cert j e)

  signature_of-Quiet :
      (files : List Text) → length files < 2 → Quiet (Unreadable files) (signature_of sys files)
  unfolding signature_of
  signature_of-Quiet [] few = Quiet-or_fail sys.stdin cannot_read_signature stdin_not_read
  signature_of-Quiet (name ∷ []) few =
      read_file-Quiet sys name cannot_open_signature cannot_read_signature signature_not_opened
        signature_not_read
  signature_of-Quiet (name ∷ name' ∷ files) few = absurd (omega arith)

  signature_of-HasSignature :
      (files : List Text) {buf : Bytes}
      → length files < 2
      → signature_of sys files ≡ done [] buf
      → HasSignature files buf
  unfolding signature_of
  signature_of-HasSignature [] few h =
      signature_on_stdin (or_fail-eq-done sys.stdin cannot_read_signature h)
  signature_of-HasSignature (name ∷ []) few h =
      signature_in_file (read_file-eq-done sys name cannot_open_signature cannot_read_signature h)
  signature_of-HasSignature (name ∷ name' ∷ files) few h = absurd (omega arith)

  signed_data_of-Quiet :
      (name data_name : Text) (files : List Text)
      → Quiet (Unreadable (name ∷ data_name ∷ files)) (signed_data_of sys data_name)
  unfolding signed_data_of
  signed_data_of-Quiet name data_name files = elim (Bool-cases (bytes_eq data_name (codes "-"))) [
    | inl dash ↦ rw dash (
        Quiet-or_fail sys.stdin cannot_read_message
          (message_stdin_not_read ((bytes_eq_iff data_name (codes "-")).0 dash)))
    | inr file ↦ rw file (
        read_file-Quiet sys data_name cannot_read_message cannot_read_message
          (λ e. message_not_read (inl e)) (λ e. message_not_read (inr e)))
  ]

  verify_attached-Reported :
      (laws : CmsLaws cms) (o : Options)
      → length o.file_args < 2
      → Reported o [] (verify_attached sys cms idents o)
  unfolding verify_attached
  verify_attached-Reported laws o few =
      Quiet-bind (Reported o []) (signature_of-Quiet o.file_args few)
        (λ buf read.
          or_fail_call-bind (Reported o []) (cms.parse_signed_data (decode_pem sys buf))
            cannot_parse_signature
            (λ e.
              unreadable cannot_parse_signature
                (signature_not_parsed (signature_of-HasSignature o.file_args few read) e))
            (λ e. panics (inl (attached_raises read e)))
            (λ sd e. report-Reported o _ (laws.verify_lem _ sd) (on_attached sd few read e)))
        unreadable

  verify_detached-Reported :
      (laws : CmsLaws cms) (o : Options) (name data_name : Text) (files : List Text)
      → o.file_args ≡ name ∷ data_name ∷ files
      → Reported o [] (verify_detached sys cms idents o name data_name)
  unfolding verify_detached
  verify_detached-Reported laws o name data_name files args =
      let unreadable_here : (e : CommandError)
          → Unreadable (name ∷ data_name ∷ files) e
          → Reported o [] (failed [] e) =
        λ e u. unreadable e (subst (λ fs. Unreadable fs e) (sym args) u) in
      Quiet-bind (Reported o [])
        (read_file-Quiet sys name cannot_open_signature cannot_read_signature signature_not_opened
          signature_not_read)
        (λ buf read.
          or_fail_call-bind (Reported o []) (cms.parse_signed_data (decode_pem sys buf))
            cannot_parse_signature
            (λ e. unreadable_here cannot_parse_signature (
              signature_not_parsed
                (signature_in_file
                  (read_file-eq-done sys name cannot_open_signature cannot_read_signature read))
                e))
            (λ e. panics (inl (subst Unparsed (sym args) (detached_raises read e))))
            (λ sd e.
              Quiet-bind (Reported o []) (signed_data_of-Quiet name data_name files)
                (λ content e'. report-Reported o _ (laws.verify_detached_lem content _ sd) (
                  subst (λ fs. Judged fs (cms.verify_detached content (verify_opts sys idents) sd))
                    (sym args) (on_detached sd read e e')))
                unreadable_here))
        unreadable_here

  verify_files-Reported :
      (laws : CmsLaws cms) (o : Options) (files : List Text)
      → o.file_args ≡ files
      → Reported o [] (verify_files sys cms idents o files)
  unfolding verify_files
  verify_files-Reported laws o [] args = verify_attached-Reported laws o (rw args (omega arith))
  verify_files-Reported laws o (name ∷ []) args =
      verify_attached-Reported laws o (rw args (omega arith))
  verify_files-Reported laws o (name ∷ data_name ∷ files) args =
      verify_detached-Reported laws o name data_name files args

  -- If package cms gives an error with no chains and a chain with a certificate otherwise, `--verify`
  -- writes NEWSIG and then reports GOODSIG and TRUST_FULLY and returns nil for a signature that package
  -- cms accepts, ERRSIG and an error for one that it refuses, and an error alone if something cannot be
  -- read or parsed; it writes no BADSIG, and panics only where package cms does.
  pub command_verify-Reported :
      CmsLaws cms
      → (o : Options) → Reported o (emit o.status_fd new_sig) (command_verify sys cms idents o)
  unfolding command_verify
  command_verify-Reported laws o =
      Reported-after o (emit o.status_fd new_sig) (verify_files-Reported laws o o.file_args refl)
