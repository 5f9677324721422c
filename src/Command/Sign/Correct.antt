-- ===== src/Command/Sign/Correct.antt =====
-- What commandSign of command_sign.go writes.
use git_kmssign.Base.{
  ◌≡◌, ◌⊎◌, refl, sym, ap, subst, Bool, List, [], ◌∷◌, some, Bytes, append-nil, if◌then◌else◌,
  Bool-cases, inl, inr,
}
use git_kmssign.Base.Text.{Text}
use git_kmssign.Cert.{Certificate, Identity}
use git_kmssign.Select.{Selection, bad_user_id_format, found, not_found, find_user_identity}
use git_kmssign.Status.{emit, begin_signing}
use git_kmssign.Status.Events.{Event, signature_written}
use git_kmssign.Command.{Called, returned, erred, raised, Cms, System}
use git_kmssign.Command.Input.{read_file-Quiet, read_file-eq-done}
use git_kmssign.Command.Options.{Options}
use git_kmssign.Command.Run.{
  CommandError, bad_user_id, no_identity, no_certificate, no_signer, cannot_open_message,
  cannot_read_message, no_chain, cannot_serialize, cannot_write_signature, Run, done, failed,
  crashed, or_fail_call, or_fail_call-bind, write, ◌>>=◌, after_events, after_events-[], Quiet,
  Quiet-bind, Quiet-or_fail, or_fail-eq-done,
}
use git_kmssign.Command.Sign.Outcomes.{
  IsMessage, IsSignature, Created, Signed, Stamped, Filled, Unsigned, Panics, Signs, created_events,
  output, stamp, message_in_file, message_on_stdin, is_signature, created, signed, stamped, filled,
  certificate_missing, signer_missing, message_not_opened, message_not_read, stdin_not_read,
  not_created, not_signed, not_stamped, chain_missing, certificates_not_set, not_serialized,
  creating, signing, stamping, setting, encoding, written, not_written, unsigned, panics,
}
use git_kmssign.Command.Sign.{
  message_of, selected, sign_message, write_signature, sign_with, command_sign,
}

Selection-cases :
    (s : Selection)
    → (s ≡ bad_user_id_format) ⊎ ((s ≡ not_found) ⊎ ((ident : Identity) × (s ≡ found ident)))
Selection-cases bad_user_id_format = inl refl
Selection-cases not_found = inr (inl refl)
Selection-cases (found ident) = inr (inr (ident, refl))

module _ (sys : System) (cms : Cms) where
  Signs-after :
      (o : Options) (ident : Identity) (before : List Event) {r : Run (Unit {0})}
      → Signs sys cms o ident [] r
      → Signs sys cms o ident before (after_events before r)
  Signs-after o ident before (written cert s w) = written cert s w
  Signs-after o ident before (not_written cert s w) = not_written cert s w
  Signs-after o ident before (unsigned e u) = rw append-nil (unsigned e u)
  Signs-after o ident before (panics p) = rw append-nil (panics p)

  message_of-Quiet :
      (o : Options) (ident : Identity) (files : List Text)
      → o.file_args ≡ files
      → Quiet (Unsigned sys cms o ident) (message_of sys files)
  unfolding message_of
  message_of-Quiet o ident [] args =
      Quiet-or_fail sys.stdin cannot_read_message (stdin_not_read (rw args (λ e. cc)))
  message_of-Quiet o ident (name ∷ []) args =
      read_file-Quiet sys name cannot_open_message cannot_read_message (message_not_opened args)
        (message_not_read args)
  message_of-Quiet o ident (name ∷ name' ∷ files) args =
      Quiet-or_fail sys.stdin cannot_read_message (stdin_not_read (rw args (λ e. cc)))

  message_of-IsMessage :
      (files : List Text) {content : Bytes}
      → message_of sys files ≡ done [] content
      → IsMessage sys cms files content
  unfolding message_of
  message_of-IsMessage [] h =
      message_on_stdin (λ e. cc) (or_fail-eq-done sys.stdin cannot_read_message h)
  message_of-IsMessage (name ∷ []) h =
      message_in_file (read_file-eq-done sys name cannot_open_message cannot_read_message h)
  message_of-IsMessage (name ∷ name' ∷ files) h =
      message_on_stdin (λ e. cc) (or_fail-eq-done sys.stdin cannot_read_message h)

  write_signature-Signs :
      (o : Options) (ident : Identity) (cert : Certificate) (der : Bytes)
      → IsSignature sys cms o ident cert der
      → Signs sys cms o ident []
          (after_events (created_events sys cms o cert) (write_signature sys cms o.armor der))
  unfolding write_signature
  write_signature-Signs o ident cert der s = elim (Bool-cases sys.can_write) [
    | inl can ↦ subst goal (sym (ap choice can)) (written cert s can)
    | inr cannot ↦ subst goal (sym (ap choice cannot)) (rw append-nil (not_written cert s cannot))
  ]
    where
      choice : Bool → Run (Unit {0})
      choice can =
          if can
          then write (signature_written (output sys cms o der) ∷ [])
          else failed [] cannot_write_signature

      goal : Run (Unit {0}) → Type 0
      goal r = Signs sys cms o ident [] (after_events (created_events sys cms o cert) r)

  data Made (o : Options) (ident : Identity) (cert : Certificate) : Run Bytes → Type 0 where
    made : {der : Bytes} → IsSignature sys cms o ident cert der → Made o ident cert (done [] der)
    not_made : (e : CommandError) → Unsigned sys cms o ident e → Made o ident cert (failed [] e)
    made_panic : Panics sys cms o ident → Made o ident cert (crashed [])

  sign_message-Made :
      (o : Options) (ident : Identity) (cert : Certificate) (signer content : Bytes)
      → IsMessage sys cms o.file_args content
      → ident.certificate ≡ some cert
      → ident.signer ≡ some signer
      → Made o ident cert (sign_message sys cms o ident cert signer content)
  unfolding sign_message
  sign_message-Made o ident cert signer content read has_cert has_signer =
      step _ (not_created read) (creating read) λ sd e₁.
        let c : Created sys cms o sd = created read e₁ in
        step _ (not_signed c has_cert has_signer) (signing c has_cert has_signer) λ made e₂.
          let s : Signed sys cms o ident made = signed c has_cert has_signer e₂ in
          step (stamp sys cms o made) (not_stamped s) (stamping s) λ done' e₃.
            let t : Stamped sys cms o ident done' = stamped s e₃ in
            Quiet-bind (Made o ident cert)
              (Quiet-or_fail ident.certificate_chain no_chain chain_missing)
              (λ chain e₄'.
                let e₄ = or_fail-eq-done ident.certificate_chain no_chain e₄' in
                step _ (certificates_not_set t e₄) (setting t e₄) λ full e₅.
                  let f : Filled sys cms o ident full = filled t e₄ e₅ in
                  last (cms.to_der full) (not_serialized f) (encoding f) λ der e₆.
                    is_signature sd made done' full read has_cert has_signer e₁ e₂ e₃ e₄ e₅ e₆)
              not_made
    where
      step :
          {A : Type 0} (x : Called A) {e : CommandError} {k : A → Run Bytes}
          → (x ≡ erred → Unsigned sys cms o ident e)
          → (x ≡ raised → Panics sys cms o ident)
          → ((a : A) → x ≡ returned a → Made o ident cert (k a))
          → Made o ident cert (or_fail_call x e >>= k)
      step x {e} u broke next =
          or_fail_call-bind (Made o ident cert) x e (λ h. not_made e (u h))
            (λ h. made_panic (broke h)) next

      last :
          (x : Called Bytes)
          → (x ≡ erred → Unsigned sys cms o ident cannot_serialize)
          → (x ≡ raised → Panics sys cms o ident)
          → ((der : Bytes) → x ≡ returned der → IsSignature sys cms o ident cert der)
          → Made o ident cert (or_fail_call x cannot_serialize)
      last erred u broke next = not_made cannot_serialize (u refl)
      last raised u broke next = made_panic (broke refl)
      last (returned der) u broke next = made (next der refl)

  Made-bind :
      {o : Options} {ident : Identity} {cert : Certificate} {r : Run Bytes}
      {k : Bytes → Run (Unit {0})}
      → Made o ident cert r
      → ((der : Bytes) → IsSignature sys cms o ident cert der → Signs sys cms o ident [] (k der))
      → Signs sys cms o ident [] (r >>= k)
  Made-bind {o} {ident} {k = k} (made {der} s) each =
      subst (Signs sys cms o ident []) (sym (after_events-[] (k der))) (each der s)
  Made-bind (not_made e u) each = unsigned e u
  Made-bind (made_panic p) each = panics p

  sign_with-Signs :
      (o : Options) (ident : Identity) → Signs sys cms o ident [] (sign_with sys cms o ident)
  unfolding sign_with
  sign_with-Signs o ident =
      Quiet-bind (Signs sys cms o ident [])
        (Quiet-or_fail ident.certificate no_certificate certificate_missing)
        (λ cert c.
          Quiet-bind (Signs sys cms o ident [])
            (Quiet-or_fail ident.signer no_signer signer_missing)
            (λ signer s.
              Quiet-bind (Signs sys cms o ident []) (message_of-Quiet o ident o.file_args refl)
                (λ content read.
                  Made-bind
                    (sign_message-Made o ident cert signer content
                      (message_of-IsMessage o.file_args read) (or_fail-eq-done _ no_certificate c)
                      (or_fail-eq-done _ no_signer s))
                    (λ der. write_signature-Signs o ident cert der))
                unsigned)
            unsigned)
        unsigned

  -- The ways in which `--sign` ends: no identity can be used, and nothing is written; or the identity
  -- that the user id names is used, behind the line BEGIN_SIGNING.
  pub data SignsFor (idents : List Identity) (o : Options) : Run (Unit {0}) → Type 0 where
    user_id_refused :
        find_user_identity sys.sha1 idents o.local_user ≡ bad_user_id_format
        → SignsFor idents o (failed [] bad_user_id)
    nobody :
        find_user_identity sys.sha1 idents o.local_user ≡ not_found
        → SignsFor idents o (failed [] no_identity)
    signs_with :
        (ident : Identity) {r : Run (Unit {0})}
        → find_user_identity sys.sha1 idents o.local_user ≡ found ident
        → Signs sys cms o ident (emit o.status_fd begin_signing) r
        → SignsFor idents o r

  -- `--sign` writes the signature of the message by the identity that the user id names, behind the line
  -- SIG_CREATED, if that signature can be made and encoded; otherwise it returns an error, with the line
  -- SIG_CREATED only if the signature could not be written, or panics where package cms does.
  pub command_sign-SignsFor :
      (idents : List Identity) (o : Options) → SignsFor idents o (command_sign sys cms idents o)
  unfolding command_sign selected
  command_sign-SignsFor idents o =
      elim (Selection-cases (find_user_identity sys.sha1 idents o.local_user)) [
        | inl refused ↦ rw refused (user_id_refused refused)
        | inr (inl none') ↦ rw none' (nobody none')
        | inr (inr (ident, e)) ↦
            rw (e, after_events-[])
              (signs_with ident e
                (Signs-after o ident (emit o.status_fd begin_signing) (sign_with-Signs o ident)))
      ]
