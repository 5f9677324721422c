-- ===== src/Stores/Windows/Contexts.antt =====
-- The contexts of certificates that Identities and Close of certstore/certstore_windows.go duplicate and
-- free.
use git_kmssign.Base.{
  ℕ, ◌+◌, ◌≡◌, refl, sym, ap, ◌∙◌, subst, Bool, true, false, not, ◌==◌, if◌then◌else◌, Bool-cases,
  inl, inr, List, [], ◌∷◌, ◌++◌, Option, none, some, arith,
}
use git_kmssign.Stores.Run.{StoreError, bad_chain, win_error, Reply, done, failed, crashed, give}
use git_kmssign.Stores.System.{Ref, acquired, released, System, note, call}
use git_kmssign.Stores.Counts.{
  count, acquisitions, releases, acquisitions-append, releases-append, Balanced,
}
use git_kmssign.Stores.Windows.{ChainContext, Api, WinPrivateKey, WinIdentity}
use git_kmssign.Stores.Windows.Key.{close_key}
use git_kmssign.Stores.Windows.Identity.{
  duplicate_all, free_all, new_win_identity, close_signer, close_identity,
}
use git_kmssign.Stores.Windows.Store.{
  is_bad, is_end, close_all, close_and_fail, add_identities, identities,
}

abbrev nothing : Ref → ℕ
nothing r = 0

module _ {S I : Type 0} where
  -- The log grew by these acquisitions and releases, and the receiver is the same.
  record Changes (a b : Ref → ℕ) (st st' : System S I) : Type 0 where
    pub is_same : st'.this ≡ st.this
    pub log_lem :
        (r : Ref)
        → (acquisitions r st'.log ≡ acquisitions r st.log + a r)
          × (releases r st'.log ≡ releases r st.log + b r)

  -- A method that cannot fail, with such a change.
  abbrev Does :
      {A : Type 0} → (Ref → ℕ) → (Ref → ℕ) → A → System S I → Reply A × System S I → Type 0
  Does a b value st p = (st' : System S I) × (p ≡ (done value, st')) × Changes a b st st'

  Changes-trans :
      {a b c d : Ref → ℕ} {st st' st'' : System S I}
      → Changes a b st st'
      → Changes c d st' st''
      → Changes (λ r. a r + c r) (λ r. b r + d r) st st''
  Changes-trans x y = record {
    is_same = y.is_same ∙ x.is_same;
    log_lem = λ r. omega (arith, x.log_lem r, y.log_lem r);
  }

  duplicate_all-Does :
      (chain : List Ref) (st : System S I)
      → Does (λ r. count r chain) nothing tt st (duplicate_all chain st)
  unfolding duplicate_all
  duplicate_all-Does [] st = (st, refl, record { is_same = refl; log_lem = λ r. omega arith })
  duplicate_all-Does (x ∷ chain) st =
      let (st', e, c) = duplicate_all-Does chain (note (acquired x) st) in
      (
        st',
        e,
        record {
          is_same = c.is_same;
          log_lem = λ r. omega (
            arith,
            c.log_lem r,
            acquisitions-append r st.log (acquired x ∷ []),
            releases-append r st.log (acquired x ∷ []),
          );
        },
      )

  free_all-Does :
      (chain : List Ref) (st : System S I)
      → Does nothing (λ r. count r chain) tt st (free_all chain st)
  unfolding free_all
  free_all-Does [] st = (st, refl, record { is_same = refl; log_lem = λ r. omega arith })
  free_all-Does (x ∷ chain) st =
      let (st', e, c) = free_all-Does chain (note (released x) st) in
      (
        st',
        e,
        record {
          is_same = c.is_same;
          log_lem = λ r. omega (
            arith,
            c.log_lem r,
            acquisitions-append r st.log (released x ∷ []),
            releases-append r st.log (released x ∷ []),
          );
        },
      )

abbrev closed : WinIdentity
closed = record { chain = []; signer = none }

-- The contexts of identities.
abbrev pub contexts : Ref → List WinIdentity → ℕ
contexts r [] = 0
contexts r (i ∷ idents) = count r i.chain + contexts r idents

contexts-append :
    (r : Ref) (l k : List WinIdentity) → contexts r (l ++ k) ≡ contexts r l + contexts r k
contexts-append r [] k = omega arith
contexts-append r (i ∷ l) k = omega (arith, contexts-append r l k)

module _ {S I : Type 0} (os : Api S) where
  -- A call that is made, or not.
  call_if-os :
      (c : Bool) (f : S → Unit {0} × S) (st : System S I)
      → (s : S) × ((if c then call f else give tt) st ≡ (done tt, record st { os = s }))
  call_if-os true f st = ((f st.os).1, refl)
  call_if-os false f st = (st.os, refl)

  close_signer-os :
      (o : Option WinPrivateKey) (st : System S I)
      → (s : S) × (close_signer os o st ≡ (done tt, record st { os = s }))
  unfolding close_key
  close_signer-os none st = (st.os, refl)
  close_signer-os (some wpk) st =
      let (s, e) = call_if-os (not (wpk.cng_handle == 0)) (os.ncrypt_free wpk.cng_handle) st in
      let (s', f) =
        call_if-os (not (wpk.capi_prov == 0)) (os.release_context wpk.capi_prov)
          (record st { os = s }) in
      (s', rw (e, f) refl)

  close_identity-Does :
      (i : WinIdentity) (st : System S I)
      → Does nothing (λ r. count r i.chain) closed st (close_identity os i st)
  unfolding close_identity
  close_identity-Does i st =
      let (s, e) = close_signer-os i.signer st in
      let (st', f, c) = free_all-Does i.chain (record st { os = s }) in
      (st', rw (e, f) refl, record { is_same = c.is_same; log_lem = c.log_lem })

  close_all-Does :
      (idents : List WinIdentity) (st : System S I)
      → Does nothing (λ r. contexts r idents) tt st (close_all os idents st)
  unfolding close_all
  close_all-Does [] st = (st, refl, record { is_same = refl; log_lem = λ r. omega arith })
  close_all-Does (i ∷ idents) st =
      let (st₁, e, c) = close_identity-Does i st in
      let (st₂, f, d) = close_all-Does idents st₁ in
      let all = Changes-trans c d in
      (
        st₂,
        rw (e, f) refl,
        record { is_same = all.is_same; log_lem = λ r. omega (arith, all.log_lem r) },
      )

  module _ (owns : Ref → I → ℕ) where
    -- What was acquired was released, but for the identities', the receiver's and others' references.
    abbrev pub Holds : List WinIdentity → List Ref → System S I → Type 0
    Holds idents refs st =
        (r : Ref)
        → acquisitions r st.log
          ≡ releases r st.log + owns r st.this + (contexts r idents + count r refs)

    -- The identities that are returned hold their contexts, and to close them frees these; with an error
    -- all is freed.
    abbrev pub RetainsContexts : List Ref → Reply (List WinIdentity) × System S I → Type 0
    RetainsContexts refs (done idents, st) =
        Holds idents refs st × Balanced owns refs (close_all os idents st).1
    RetainsContexts refs (failed e, st) = Balanced owns refs st
    RetainsContexts refs (crashed, st) = ⊥

    Holds-close_all :
        (idents : List WinIdentity) (refs : List Ref) (st : System S I)
        → Holds idents refs st
        → Balanced owns refs (close_all os idents st).1
    Holds-close_all idents refs st h =
        let (st', e, c) = close_all-Does idents st in
        subst (λ p. Balanced owns refs p.1) (sym e)
          (λ r. omega (arith, c.log_lem r, h r, ap (owns r) c.is_same))

    close_and_fail-RetainsContexts :
        (idents : List WinIdentity) (e : StoreError) (refs : List Ref) (st : System S I)
        → Holds idents refs st
        → RetainsContexts refs (close_and_fail os idents e st)
    unfolding close_and_fail
    close_and_fail-RetainsContexts idents e refs st h =
        let (st', done', c) = close_all-Does idents st in
        let balanced = Holds-close_all idents refs st h in
        rw done' (λ r. omega (arith, c.log_lem r, h r, ap (owns r) c.is_same))

    add_identities-RetainsContexts :
        (idents : List WinIdentity) (chains : List ChainContext) (refs : List Ref) (st : System S I)
        → Holds idents refs st
        → RetainsContexts refs (add_identities os idents chains st)
    unfolding add_identities new_win_identity
    add_identities-RetainsContexts idents [] refs st h =
        elim (Bool-cases (is_end (os.last_error st.os))) [
          | inl e ↦ rw e (h, Holds-close_all idents refs st h)
          | inr e ↦
              rw e
                (close_and_fail-RetainsContexts idents (win_error (os.last_error st.os)) refs st h)
        ]
    add_identities-RetainsContexts idents (x ∷ chains) refs st h = elim (Bool-cases (is_bad x)) [
      | inl e ↦ rw (e, add_identities) (close_and_fail-RetainsContexts idents bad_chain refs st h)
      | inr e ↦
          let (st', f, c) = duplicate_all-Does x.elements st in
          let ident : WinIdentity = record { chain = x.elements; signer = none } in
          rw (e, add_identities, f)
            (add_identities-RetainsContexts (idents ++ (ident ∷ [])) chains refs st' (λ r. omega (
              arith,
              c.log_lem r,
              h r,
              ap (owns r) c.is_same,
              contexts-append r idents (ident ∷ []),
            )))
    ]

    -- The identities that Identities returns hold each context of their chains once, and to close them
    -- frees all that it duplicated; with an error it has freed that. It does not panic. What other code
    -- holds stays.
    pub identities-RetainsContexts :
        (store : ℕ) (refs : List Ref) (st : System S I)
        → Balanced owns refs st
        → RetainsContexts refs (identities os store st)
    unfolding identities
    identities-RetainsContexts store refs st b =
        let (chains, s) = os.find_chains store st.os in
        add_identities-RetainsContexts [] chains refs (record st { os = s })
          (λ r. omega (arith, b r))
