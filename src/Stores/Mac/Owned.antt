-- ===== src/Stores/Mac/Owned.antt =====
-- The references that certstore/certstore_darwin.go acquires and releases, counted.
use git_kmssign.Base.{
  ℕ, ◌+◌, ◌≡◌, refl, ap, not, Bool-cases, inl, inr, List, [], ◌∷◌, Option, none, some, Bytes, arith,
}
use git_kmssign.Base.Int.{ℤ}
use git_kmssign.Protocol.Signers.{eq_ℤ}
use git_kmssign.Stores.Run.{Run}
use git_kmssign.Stores.System.{Ref, acquired, System, note}
use git_kmssign.Stores.Mac.{Security, MacIdentity}
use git_kmssign.Stores.Counts.{
  one, acquisitions-append, releases-append, held, Balanced, Keeps, Keeps-fail_if, keeps_rules,
}
use git_kmssign.Stores.Mac.Identity.{
  os_status_error, bytes_to_cf_data, copy_cert_ref, copy_key_ref, get_cert_ref, get_key_ref,
  given_or, delete,
}

-- The references of an identity.
abbrev pub owned : Ref → MacIdentity → ℕ
owned r i = held r i.ref + held r i.kref + held r i.cref

module _ {S : Type 0} (os : Security S) where
  abbrev pub Kept : {A : Type 0} → Run (System S MacIdentity) A → Type 0
  Kept m = Keeps owned m

  pub os_status_error-Keeps : (status : ℤ) → Kept (os_status_error os status)
  unfolding os_status_error
  os_status_error-Keeps status = Keeps-fail_if owned _ _

  pub bytes_to_cf_data-Keeps : (bytes : Bytes) → Kept (bytes_to_cf_data os bytes)
  unfolding bytes_to_cf_data
  bytes_to_cf_data-Keeps bytes = search keeps_rules depth 6

  pub delete-Keeps : Kept (delete os)
  unfolding delete
  delete-Keeps = search (keeps_rules, os_status_error-Keeps) depth 12

  -- A reference that is acquired and kept in a field that was nil.
  stored-Balanced :
      (x : Ref) (set_field : MacIdentity → MacIdentity) (refs : List Ref)
      (st : System S MacIdentity)
      → ((r : Ref) → owned r (set_field st.this) ≡ owned r st.this + one r x)
      → Balanced owned refs st
      → Balanced owned refs (record (note (acquired x) st) { this = set_field st.this })
  stored-Balanced x set_field refs st adds b = λ r. omega (
    arith,
    acquisitions-append r st.log (acquired x ∷ []),
    releases-append r st.log (acquired x ∷ []),
    adds r,
    b r,
  )

  copy_cert_ref-Balanced :
      (refs : List Ref) (st : System S MacIdentity)
      → st.this.cref ≡ none
      → Balanced owned refs st
      → Balanced owned refs (copy_cert_ref os st).1
  unfolding copy_cert_ref os_status_error
  copy_cert_ref-Balanced refs st nil b =
      let ((status, x), s) = os.copy_certificate st.this.ref st.os in
      elim (Bool-cases (not (eq_ℤ status os.err_sec_success))) [
        | inl e ↦ rw e b
        | inr e ↦ rw e (
            stored-Balanced x (λ i. record i { cref = some x }) refs (record st { os = s })
              (λ r. omega (arith, ap (held r) nil)) b)
      ]

  copy_key_ref-Balanced :
      (refs : List Ref) (st : System S MacIdentity)
      → st.this.kref ≡ none
      → Balanced owned refs st
      → Balanced owned refs (copy_key_ref os st).1
  unfolding copy_key_ref os_status_error
  copy_key_ref-Balanced refs st nil b =
      let ((status, x), s) = os.copy_private_key st.this.ref st.os in
      elim (Bool-cases (not (eq_ℤ status os.err_sec_success))) [
        | inl e ↦ rw e b
        | inr e ↦ rw e (
            stored-Balanced x (λ i. record i { kref = some x }) refs (record st { os = s })
              (λ r. omega (arith, ap (held r) nil)) b)
      ]

  given_or-Balanced :
      {A : Type 0} (o : Option A) (m : Run (System S MacIdentity) A) (refs : List Ref)
      (st : System S MacIdentity)
      → (o ≡ none → Balanced owned refs (m st).1)
      → Balanced owned refs st
      → Balanced owned refs (given_or os o m st).1
  given_or-Balanced none m refs st made b = made refl
  given_or-Balanced (some a) m refs st made b = b

  pub get_cert_ref-Keeps : Kept (get_cert_ref os)
  unfolding get_cert_ref
  get_cert_ref-Keeps = record {
    keeps_lem = λ refs st b.
        given_or-Balanced st.this.cref (copy_cert_ref os) refs st
          (λ nil. copy_cert_ref-Balanced refs st nil b) b;
  }

  pub get_key_ref-Keeps : Kept (get_key_ref os)
  unfolding get_key_ref
  get_key_ref-Keeps = record {
    keeps_lem = λ refs st b.
        given_or-Balanced st.this.kref (copy_key_ref os) refs st
          (λ nil. copy_key_ref-Balanced refs st nil b) b;
  }
