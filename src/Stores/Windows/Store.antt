-- ===== src/Stores/Windows/Store.antt =====
-- certstore/certstore_windows.go: winStore, a handle of a store.
use git_kmssign.Base.{
  ℕ, ◌^◌, ltb, bit_and, bit_or, Bool, true, false, ◌==◌, ◌||◌, if◌then◌else◌, length, List, [], ◌∷◌,
  ◌++◌, Bytes,
}
use git_kmssign.Base.Text.{Text}
use git_kmssign.Stores.Run.{StoreError, win_error, bad_chain, Run, ◌>>=◌, ◌>>◌, give, fail}
use git_kmssign.Stores.System.{Ref, System, call, look}
use git_kmssign.Stores.Windows.{
  Flags, ChainContext, Api, WinIdentity, crypt_e_not_found, or_last_error, true_or_last_error,
  deferring,
}
use git_kmssign.Stores.Windows.Identity.{new_win_identity, close_identity}

-- cChain and cElement of a chain that is refused.
abbrev pub is_bad : ChainContext → Bool
is_bad c = ltb c.chains 1 || (ltb (length c.elements) 1 || ltb (2 ^ 28) (length c.elements))

-- The end of an iteration: no code, or that there is nothing more.
abbrev pub is_end : ℕ → Bool
is_end code = (code == 0) || (code == crypt_e_not_found)

-- The flags of PFXImportCertStore, by winAPIFlag.
unfoldable pub import_flags : Flags → ℕ → ℕ
import_flags flags api_flag =
    if ltb 0 (bit_and api_flag flags.prefer_ncrypt_key)
    then bit_or flags.user_keyset flags.prefer_cng_ksp
    else (if ltb 0 (bit_and api_flag flags.only_ncrypt_key)
        then bit_or flags.user_keyset flags.always_cng_ksp
        else flags.user_keyset)

module _ {S I : Type 0} (os : Api S) where
  unfoldable pub open_store : Run (System S I) ℕ
  open_store = do store ← call os.open_store; or_last_error os store

  unfoldable pub close_store : ℕ → Run (System S I) (Unit {0})
  close_store store = call (os.close_store store)

  unfoldable pub close_all : List WinIdentity → Run (System S I) (Unit {0})
  close_all [] = give tt
  close_all (i ∷ idents) = do closed ← close_identity os i; close_all idents

  -- The label `fail`.
  unfoldable pub close_and_fail :
      List WinIdentity → StoreError → Run (System S I) (List WinIdentity)
  close_and_fail idents e = do close_all idents; fail e

  -- The loop over the chains, with the identities made so far.
  unfoldable pub add_identities :
      List WinIdentity → List ChainContext → Run (System S I) (List WinIdentity)
  add_identities idents [] = do
    code ← look os.last_error
    if is_end code then give idents else close_and_fail idents (win_error code)
  add_identities idents (c ∷ chains) = elim (is_bad c) [
    | true ↦ close_and_fail idents bad_chain
    | false ↦ new_win_identity c.elements >>= λ (i : WinIdentity).
        add_identities (idents ++ (i ∷ [])) chains
  ]

  unfoldable pub identities : ℕ → Run (System S I) (List WinIdentity)
  identities store = do chains ← call (os.find_chains store); add_identities [] chains

  -- The loop that copies the certificates of the temporary store.
  unfoldable pub add_certificates : ℕ → List Ref → Run (System S I) (Unit {0})
  add_certificates store [] = do
    code ← look os.last_error
    if is_end code then give tt else fail (win_error code)
  add_certificates store (ctx ∷ contexts) = do
    added ← call (os.add_certificate store ctx)
    true_or_last_error os added
    add_certificates store contexts

  unfoldable pub import_pfx : Flags → ℕ → ℕ → Bytes → Text → Run (System S I) (Unit {0})
  import_pfx flags api_flag store blob password = do
    opened ← call (os.import_pfx blob password (import_flags flags api_flag))
    temporary ← or_last_error os opened
    deferring os (os.close_store temporary)
        (do contexts ← call (os.find_certificates temporary); add_certificates store contexts)
