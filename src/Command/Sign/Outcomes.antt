-- ===== src/Command/Sign/Outcomes.antt =====
-- The ways in which commandSign of command_sign.go ends once an identity is found.
use git_kmssign.Base.{
  ◌≡◌, ◌≢◌, ltb, true, false, List, [], ◌∷◌, ◌++◌, length, none, some, Bytes, if◌then◌else◌,
}
use git_kmssign.Base.Text.{Text}
use git_kmssign.Cert.{Certificate, Identity}
use git_kmssign.Chain.{certs_for_signature}
use git_kmssign.Status.Events.{Event, signature_written}
use git_kmssign.Status.Signature.{emit_sig_created}
use git_kmssign.Command.{Called, returned, erred, raised, Cms, System}
use git_kmssign.Command.Options.{Options}
use git_kmssign.Command.Run.{
  CommandError, no_certificate, no_signer, cannot_open_message, cannot_read_message, cannot_create,
  cannot_sign, cannot_timestamp, no_chain, cannot_set_certificates, cannot_serialize,
  cannot_write_signature, Run, done, failed, crashed,
}

module _ (sys : System) (cms : Cms) where
  -- The bytes of the message: of the one file that is named, or of stdin.
  pub data IsMessage : List Text → Bytes → Type 0 where
    message_in_file :
        {name : Text} {content : Bytes}
        → sys.open_file name ≡ some (some content)
        → IsMessage (name ∷ []) content
    message_on_stdin :
        {files : List Text} {content : Bytes}
        → length files ≢ 1
        → sys.stdin ≡ some content
        → IsMessage files content

  -- The encoded signature of a message: over the message, by the identity's certificate and key,
  -- detached and stamped as the options say, with the certificates that --include-certs selects.
  pub data IsSignature (o : Options) (ident : Identity) (cert : Certificate) : Bytes → Type 0 where
    is_signature :
        {content signer der : Bytes} {chain : List Certificate}
        (sd signed stamped full : cms.SignedData)
        → IsMessage o.file_args content
        → ident.certificate ≡ some cert
        → ident.signer ≡ some signer
        → cms.new_signed_data content ≡ returned sd
        → cms.sign (cert ∷ []) signer sd ≡ returned signed
        → (if ltb 0 (length o.tsa)
            then cms.add_timestamps o.tsa (if o.detach_sign then cms.detached signed else signed)
            else returned (if o.detach_sign then cms.detached signed else signed))
          ≡ returned stamped
        → ident.certificate_chain ≡ some chain
        → cms.set_certificates (certs_for_signature o.include_certs chain) stamped ≡ returned full
        → cms.to_der full ≡ returned der
        → IsSignature o ident cert der

  abbrev pub created_events : Options → Certificate → List Event
  created_events o cert = emit_sig_created sys.pgp sys.sha1 o.status_fd sys.now cert o.detach_sign

  abbrev pub output : Options → Bytes → Bytes
  output o der = if o.armor then sys.pem_encode der else der

  abbrev pub shown : Options → cms.SignedData → cms.SignedData
  shown o signed = if o.detach_sign then cms.detached signed else signed

  -- The call that stamps, if there is an address for it.
  abbrev pub stamp : Options → cms.SignedData → Called cms.SignedData
  stamp o signed =
      if ltb 0 (length o.tsa)
      then cms.add_timestamps o.tsa (shown o signed)
      else returned (shown o signed)

  -- How far signing comes: the message is created, signed, stamped and given its certificates.
  pub data Created (o : Options) : cms.SignedData → Type 0 where
    created :
        {content : Bytes} {sd : cms.SignedData}
        → IsMessage o.file_args content
        → cms.new_signed_data content ≡ returned sd
        → Created o sd

  pub data Signed (o : Options) (ident : Identity) : cms.SignedData → Type 0 where
    signed :
        {sd made : cms.SignedData} {cert : Certificate} {signer : Bytes}
        → Created o sd
        → ident.certificate ≡ some cert
        → ident.signer ≡ some signer
        → cms.sign (cert ∷ []) signer sd ≡ returned made
        → Signed o ident made

  pub data Stamped (o : Options) (ident : Identity) : cms.SignedData → Type 0 where
    stamped :
        {made done' : cms.SignedData}
        → Signed o ident made
        → stamp o made ≡ returned done'
        → Stamped o ident done'

  pub data Filled (o : Options) (ident : Identity) : cms.SignedData → Type 0 where
    filled :
        {done' full : cms.SignedData} {chain : List Certificate}
        → Stamped o ident done'
        → ident.certificate_chain ≡ some chain
        → cms.set_certificates (certs_for_signature o.include_certs chain) done' ≡ returned full
        → Filled o ident full

  -- What there is not for a signature, and the error for it.
  pub data Unsigned (o : Options) (ident : Identity) : CommandError → Type 0 where
    certificate_missing : ident.certificate ≡ none → Unsigned o ident no_certificate
    signer_missing : ident.signer ≡ none → Unsigned o ident no_signer
    message_not_opened :
        {name : Text}
        → o.file_args ≡ name ∷ []
        → sys.open_file name ≡ none
        → Unsigned o ident cannot_open_message
    message_not_read :
        {name : Text}
        → o.file_args ≡ name ∷ []
        → sys.open_file name ≡ some none
        → Unsigned o ident cannot_read_message
    stdin_not_read :
        length o.file_args ≢ 1 → sys.stdin ≡ none → Unsigned o ident cannot_read_message
    not_created :
        {content : Bytes}
        → IsMessage o.file_args content
        → cms.new_signed_data content ≡ erred
        → Unsigned o ident cannot_create
    not_signed :
        {sd : cms.SignedData} {cert : Certificate} {signer : Bytes}
        → Created o sd
        → ident.certificate ≡ some cert
        → ident.signer ≡ some signer
        → cms.sign (cert ∷ []) signer sd ≡ erred
        → Unsigned o ident cannot_sign
    not_stamped :
        {made : cms.SignedData}
        → Signed o ident made
        → stamp o made ≡ erred
        → Unsigned o ident cannot_timestamp
    chain_missing : ident.certificate_chain ≡ none → Unsigned o ident no_chain
    certificates_not_set :
        {done' : cms.SignedData} {chain : List Certificate}
        → Stamped o ident done'
        → ident.certificate_chain ≡ some chain
        → cms.set_certificates (certs_for_signature o.include_certs chain) done' ≡ erred
        → Unsigned o ident cannot_set_certificates
    not_serialized :
        {full : cms.SignedData}
        → Filled o ident full
        → cms.to_der full ≡ erred
        → Unsigned o ident cannot_serialize

  -- The call of package cms that panics.
  pub data Panics (o : Options) (ident : Identity) : Type 0 where
    creating :
        {content : Bytes}
        → IsMessage o.file_args content
        → cms.new_signed_data content ≡ raised
        → Panics o ident
    signing :
        {sd : cms.SignedData} {cert : Certificate} {signer : Bytes}
        → Created o sd
        → ident.certificate ≡ some cert
        → ident.signer ≡ some signer
        → cms.sign (cert ∷ []) signer sd ≡ raised
        → Panics o ident
    stamping :
        {made : cms.SignedData} → Signed o ident made → stamp o made ≡ raised → Panics o ident
    setting :
        {done' : cms.SignedData} {chain : List Certificate}
        → Stamped o ident done'
        → ident.certificate_chain ≡ some chain
        → cms.set_certificates (certs_for_signature o.include_certs chain) done' ≡ raised
        → Panics o ident
    encoding :
        {full : cms.SignedData} → Filled o ident full → cms.to_der full ≡ raised → Panics o ident

  -- The ways in which signing with an identity ends, behind the events `before`: the signature is
  -- written behind the SIG_CREATED line; it cannot be written; there is none; or package cms panics.
  pub data Signs (o : Options) (ident : Identity) (before : List Event)
      : Run (Unit {0}) → Type 0 where
    written :
        {der : Bytes} (cert : Certificate)
        → IsSignature o ident cert der
        → sys.can_write ≡ true
        → Signs o ident before
            (done (before ++ (created_events o cert ++ (signature_written (output o der) ∷ []))) tt)
    not_written :
        {der : Bytes} (cert : Certificate)
        → IsSignature o ident cert der
        → sys.can_write ≡ false
        → Signs o ident before (failed (before ++ created_events o cert) cannot_write_signature)
    unsigned : (e : CommandError) → Unsigned o ident e → Signs o ident before (failed before e)
    panics : Panics o ident → Signs o ident before (crashed before)
