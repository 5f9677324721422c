-- ===== src/Stores/Windows/Identity.antt =====
-- certstore/certstore_windows.go: winIdentity.
use git_kmssign.Base.{List, [], ◌∷◌, Option, none, some, Bytes}
use git_kmssign.Cert.{Certificate}
use git_kmssign.Stores.Run.{certificate_parsing, Run, ◌>>=◌, ◌>>◌, give, crash, or_fail}
use git_kmssign.Stores.System.{Ref, System, call, look, acquire, release, get, update}
use git_kmssign.Stores.Windows.{Flags, Api, WinPrivateKey, WinIdentity, true_or_last_error}
use git_kmssign.Stores.Windows.Key.{new_win_private_key, delete_key, close_key}

-- i.chain[0]
abbrev pub first_context : {St : Type 0} → List Ref → Run St Ref
first_context [] = crash
first_context (ctx ∷ chain) = give ctx

module _ {S I : Type 0} where
  unfoldable pub duplicate_all : List Ref → Run (System S I) (Unit {0})
  duplicate_all [] = give tt
  duplicate_all (ctx ∷ chain) = do acquire ctx; duplicate_all chain

  unfoldable pub free_all : List Ref → Run (System S I) (Unit {0})
  free_all [] = give tt
  free_all (ctx ∷ chain) = do release ctx; free_all chain

  unfoldable pub new_win_identity : List Ref → Run (System S I) WinIdentity
  new_win_identity chain = do duplicate_all chain; give (record { chain = chain; signer = none })

module _ {S : Type 0} (os : Api S) where
  module _ {I : Type 0} where
    -- Close of an identity, which is given as it is behind it.
    abbrev pub close_signer : Option WinPrivateKey → Run (System S I) (Unit {0})
    close_signer none = give tt
    close_signer (some wpk) = do closed ← close_key os wpk; give tt

    unfoldable pub close_identity : WinIdentity → Run (System S I) WinIdentity
    close_identity i = do
      close_signer i.signer
      free_all i.chain
      give (record { chain = []; signer = none })

  module _ (parse_certificate : Bytes → Option Certificate) where
    unfoldable pub export_cert_ctx : Ref → Run (System S WinIdentity) Certificate
    export_cert_ctx ctx = do
      der ← look (os.encoded ctx)
      or_fail (parse_certificate der) certificate_parsing

    unfoldable pub certificate : Run (System S WinIdentity) Certificate
    certificate = do i ← get; ctx ← first_context i.chain; export_cert_ctx ctx

    -- The loop of CertificateChain.
    unfoldable pub export_all : List Ref → Run (System S WinIdentity) (List Certificate)
    export_all [] = give []
    export_all (ctx ∷ chain) = do
      cert ← export_cert_ctx ctx
      certs ← export_all chain
      give (cert ∷ certs)

    unfoldable pub certificate_chain : Run (System S WinIdentity) (List Certificate)
    certificate_chain = do i ← get; export_all i.chain

    unfoldable pub load_private_key : Flags → Run (System S WinIdentity) WinPrivateKey
    load_private_key flags = do
      cert ← certificate
      i ← get
      ctx ← first_context i.chain
      wpk ← new_win_private_key os flags ctx cert.public_key_algorithm cert.public_key
      update (λ (i : WinIdentity). record i { signer = some wpk })
      give wpk

    abbrev pub given_or :
        Option WinPrivateKey
        → Run (System S WinIdentity) WinPrivateKey
        → Run (System S WinIdentity) WinPrivateKey
    given_or (some wpk) m = give wpk
    given_or none m = m

    -- getPrivateKey, and Signer.
    unfoldable pub get_private_key : Flags → Run (System S WinIdentity) WinPrivateKey
    get_private_key flags = do i ← get; given_or i.signer (load_private_key flags)

    -- The duplicate is freed by the call that deletes the certificate.
    unfoldable pub delete : Flags → Run (System S WinIdentity) (Unit {0})
    delete flags = do
      i ← get
      ctx ← first_context i.chain
      acquire ctx
      release ctx
      deleted ← call (os.delete_certificate ctx)
      true_or_last_error os deleted
      wpk ← get_private_key flags
      delete_key os wpk

  unfoldable pub close : Run (System S WinIdentity) (Unit {0})
  close = do i ← get; closed ← close_identity i; update (λ (i : WinIdentity). closed)
