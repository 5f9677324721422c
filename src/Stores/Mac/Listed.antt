-- ===== src/Stores/Mac/Listed.antt =====
-- The references that Identities of certstore/certstore_darwin.go leaves.
use git_kmssign.Base.{
  ℕ, ◌+◌, ◌≡◌, refl, sym, subst, Bool-cases, inl, inr, List, [], ◌∷◌, Option, none, some, arith,
}
use git_kmssign.Base.Int.{ℤ}
use git_kmssign.Protocol.Signers.{eq_ℤ}
use git_kmssign.Stores.Run.{creating_dictionary, Reply, done, failed, crashed, next, ◌>>=◌, or_fail}
use git_kmssign.Stores.System.{Ref, acquired, released, System, note, call, holding, let_go}
use git_kmssign.Stores.Mac.{all_identities, Security, MacIdentity}
use git_kmssign.Stores.Mac.Store.{
  new_mac_identity, new_mac_identities, first_address, found_identities, identities,
}
use git_kmssign.Stores.Counts.{
  acquisitions, releases, acquisitions-append, releases-append, count, Balanced,
}
use git_kmssign.Stores.Mac.Owned.{owned}

-- The references of identities.
abbrev pub owned_all : Ref → List MacIdentity → ℕ
owned_all r [] = 0
owned_all r (i ∷ idents) = owned r i + owned_all r idents

module _ {S I : Type 0} (owns : Ref → I → ℕ) where
  -- The identities own what was acquired and is not released; with an error, or a panic, all is.
  abbrev pub RetainsRefs : List Ref → Reply (List MacIdentity) × System S I → Type 0
  RetainsRefs refs (done idents, st) =
      (r : Ref)
      → acquisitions r st.log
        ≡ releases r st.log + owns r st.this + (owned_all r idents + count r refs)
  RetainsRefs refs (failed e, st) = Balanced owns refs st
  RetainsRefs refs (crashed, st) = Balanced owns refs st

  noted-Balanced :
      (x : Ref) (refs : List Ref) (st : System S I)
      → Balanced owns refs st
      → Balanced owns (x ∷ refs) (note (acquired x) st)
  noted-Balanced x refs st b = λ r. omega (
    arith,
    acquisitions-append r st.log (acquired x ∷ []),
    releases-append r st.log (acquired x ∷ []),
    b r,
  )

  let_go-RetainsRefs :
      (x : Ref) (refs : List Ref) (p : Reply (List MacIdentity) × System S I)
      → RetainsRefs (x ∷ refs) p
      → RetainsRefs refs (let_go x p)
  let_go-RetainsRefs x refs (done idents, st) h = λ r. omega (
    arith,
    acquisitions-append r st.log (released x ∷ []),
    releases-append r st.log (released x ∷ []),
    h r,
  )
  let_go-RetainsRefs x refs (failed e, st) h = λ r. omega (
    arith,
    acquisitions-append r st.log (released x ∷ []),
    releases-append r st.log (released x ∷ []),
    h r,
  )
  let_go-RetainsRefs x refs (crashed, st) h = λ r. omega (
    arith,
    acquisitions-append r st.log (released x ∷ []),
    releases-append r st.log (released x ∷ []),
    h r,
  )

  new_mac_identities-RetainsRefs :
      (found refs : List Ref) (st : System S I)
      → Balanced owns refs st
      → (idents : List MacIdentity) × (st' : System S I) × (new_mac_identities found st
          ≡ (done idents, st'))
        × RetainsRefs refs (done idents, st')
  unfolding new_mac_identities new_mac_identity
  new_mac_identities-RetainsRefs [] refs st b = ([], st, refl, λ r. omega (arith, b r))
  new_mac_identities-RetainsRefs (x ∷ found) refs st b =
      let (idents, st', e, h) =
        new_mac_identities-RetainsRefs found (x ∷ refs) (note (acquired x) st)
          (noted-Balanced x refs st b) in
      let ident : MacIdentity = record {
        ref = some x;
        kref = none;
        cref = none;
        crt = none;
        chain = none;
      } in
      (ident ∷ idents, st', rw e refl, λ r. omega (arith, h r))

  listed-RetainsRefs :
      (found refs : List Ref) (st : System S I)
      → Balanced owns refs st
      → RetainsRefs refs (next (first_address found st) (λ _. new_mac_identities found))
  unfolding first_address
  listed-RetainsRefs [] refs st b = b
  listed-RetainsRefs (x ∷ found) refs st b =
      let (idents, st', e, h) = new_mac_identities-RetainsRefs (x ∷ found) refs st b in
      subst (RetainsRefs refs) (sym e) h

  module _ (os : Security S) where
    found_identities-RetainsRefs :
        (status : ℤ) (result : Ref) (refs : List Ref) (st : System S I)
        → Balanced owns refs st
        → RetainsRefs refs (found_identities os status result st)
    unfolding found_identities
    found_identities-RetainsRefs status result refs st b =
        elim (Bool-cases (eq_ℤ status os.err_sec_success)) [
          | inl e ↦ rw e (
              let_go-RetainsRefs result refs _ (
                listed-RetainsRefs (os.array_values result st.os) (result ∷ refs)
                  (note (acquired result) st) (noted-Balanced result refs st b)))
          | inr e ↦ elim (Bool-cases (eq_ℤ status os.err_sec_item_not_found)) [
            | inl f ↦ rw (e, f) (λ r. omega (arith, b r))
            | inr f ↦ rw (e, f) b
          ]
        ]

    queried-RetainsRefs :
        (dictionary : Option Ref) (refs : List Ref) (st : System S I)
        → Balanced owns refs st
        → RetainsRefs refs (
            next (or_fail dictionary creating_dictionary st) (λ query.
              holding query (call (os.copy_matching query) >>= λ x. found_identities os x.0 x.1)))
    queried-RetainsRefs none refs st b = b
    queried-RetainsRefs (some query) refs st b =
        let ((status, result), s) = os.copy_matching query st.os in
        let_go-RetainsRefs query refs _ (
          found_identities-RetainsRefs status result (query ∷ refs)
            (record (note (acquired query) st) { os = s }) (noted-Balanced query refs st b))

    -- The identities that Identities returns own one reference for each acquisition that is not released
    -- by it; with an error or a panic it has released all that it acquired. What other code holds stays.
    pub identities-RetainsRefs :
        (refs : List Ref) (st : System S I)
        → Balanced owns refs st
        → RetainsRefs refs (identities os st)
    unfolding identities
    identities-RetainsRefs refs st b =
        let (dictionary, s) = os.create_dictionary all_identities st.os in
        queried-RetainsRefs dictionary refs (record st { os = s }) b
