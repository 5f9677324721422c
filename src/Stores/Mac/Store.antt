-- ===== src/Stores/Mac/Store.antt =====
-- certstore/certstore_darwin.go: macStore, which has no state of its own. (openStore and Close do nothing.)
use git_kmssign.Base.{if◌then◌else◌, List, [], ◌∷◌, none, some, Bytes}
use git_kmssign.Base.Int.{ℤ}
use git_kmssign.Base.Text.{Text}
use git_kmssign.Protocol.Signers.{eq_ℤ}
use git_kmssign.Stores.Run.{
  os_status, creating_dictionary, Run, ◌>>=◌, ◌>>◌, give, fail, crash, or_fail,
}
use git_kmssign.Stores.System.{Ref, System, call, look, holding, acquire}
use git_kmssign.Stores.Mac.{all_identities, passphrase, Security, MacIdentity}
use git_kmssign.Stores.Mac.Identity.{os_status_error, bytes_to_cf_data}

-- The identity retains the reference.
unfoldable pub new_mac_identity : {S I : Type 0} → Ref → Run (System S I) MacIdentity
new_mac_identity ref = do
  acquire ref
  give (record { ref = some ref; kref = none; cref = none; crt = none; chain = none })

unfoldable pub new_mac_identities : {S I : Type 0} → List Ref → Run (System S I) (List MacIdentity)
new_mac_identities [] = give []
new_mac_identities (r ∷ refs) = do
  ident ← new_mac_identity r
  idents ← new_mac_identities refs
  give (ident ∷ idents)

-- `&identRefs[0]` in front of the loop.
unfoldable pub first_address : {S I : Type 0} → List Ref → Run (System S I) (Unit {0})
first_address [] = crash
first_address (r ∷ refs) = give tt

module _ {S I : Type 0} (os : Security S) where
  unfoldable pub found_identities : ℤ → Ref → Run (System S I) (List MacIdentity)
  found_identities status result =
      if eq_ℤ status os.err_sec_success
      then holding result
          (do refs ← look (os.array_values result); first_address refs; new_mac_identities refs)
      else (if eq_ℤ status os.err_sec_item_not_found then give [] else fail (os_status status))

  unfoldable pub identities : Run (System S I) (List MacIdentity)
  identities = do
    dictionary ← call (os.create_dictionary all_identities)
    query ← or_fail dictionary creating_dictionary
    holding query
        (do (status, result) ← call (os.copy_matching query); found_identities status result)

  unfoldable pub import_pfx : Bytes → Text → Run (System S I) (Unit {0})
  import_pfx blob password = do
    cdata ← bytes_to_cf_data os blob
    holding cdata (do
      cpass ← call (os.create_string password)
      holding cpass (do
        dictionary ← call (os.create_dictionary (passphrase cpass))
        cops ← or_fail dictionary creating_dictionary
        holding cops (do
          (status, items) ← call (os.import_pkcs12 cdata cops)
          os_status_error os status
          holding items (give tt))))
