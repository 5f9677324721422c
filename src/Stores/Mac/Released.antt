-- ===== src/Stores/Mac/Released.antt =====
-- The methods of macIdentity in certstore/certstore_darwin.go give back what they acquire.
use git_kmssign.Base.{ℕ, ◌+◌, ◌≡◌, List, [], ◌∷◌, Option, none, some, Bytes, arith}
use git_kmssign.Cert.{Certificate, Hash}
use git_kmssign.Stores.Run.{Reply, done, failed, crashed, Run, next, ◌>>◌}
use git_kmssign.Stores.System.{Ref, released, System, update}
use git_kmssign.Stores.Mac.{Security, MacIdentity}
use git_kmssign.Stores.Mac.Identity.{
  export_cert_ref, certificate, signer, key_or_nil, public_key, get_algo, signature_or_error, sign,
  delete, release_field, close,
}
use git_kmssign.Stores.Mac.Store.{new_mac_identity}
use git_kmssign.Stores.Counts.{
  acquisitions, releases, acquisitions-append, releases-append, held, Balanced, keeps_rules,
}
use git_kmssign.Stores.Mac.Owned.{
  owned, Kept, bytes_to_cf_data-Keeps, delete-Keeps, get_cert_ref-Keeps, get_key_ref-Keeps,
}

-- The methods, but CertificateChain and Close.
pub data MacCall : Type 0 where
  certificates signers public_keys deletes : MacCall
  signs : Hash → Bytes → MacCall

abbrev no_identity : MacIdentity
no_identity = record { ref = none; kref = none; cref = none; crt = none; chain = none }

module _ {S : Type 0} (os : Security S) where
  Keeps-update_crt :
      (crt : Option Certificate) → Kept os (update (λ (i : MacIdentity). record i { crt = crt }))
  Keeps-update_crt crt = record { keeps_lem = λ refs st b. b }

  -- The receiver that newMacIdentity makes.
  abbrev pub opened : Ref → S → System S MacIdentity
  opened ref s =
      (next (new_mac_identity ref (record { os = s; log = []; this = no_identity }))
        (λ i. update (λ (_ : MacIdentity). i))).1

  -- The state behind a field that Close releases.
  abbrev releasing : Option Ref → System S MacIdentity → System S MacIdentity
  releasing o st = (release_field os o st).1

  release_field-next :
      {A : Type 0} (P : Reply A × System S MacIdentity → Type 0) (o : Option Ref)
      (m : Run (System S MacIdentity) A) (st : System S MacIdentity)
      → P (m (releasing o st))
      → P ((release_field os o >> m) st)
  release_field-next P none m st h = h
  release_field-next P (some x) m st h = h

  releasing-log :
      (r : Ref) (o : Option Ref) (st : System S MacIdentity)
      → (acquisitions r (releasing o st).log ≡ acquisitions r st.log)
        × (releases r (releasing o st).log ≡ releases r st.log + held r o)
  releasing-log r none st = omega arith
  releasing-log r (some x) st = omega (
    arith,
    acquisitions-append r st.log (released x ∷ []),
    releases-append r st.log (released x ∷ []),
  )

  close-Balanced :
      (st : System S MacIdentity) (r : Ref)
      → Balanced owned [] st
      → acquisitions r (close os st).1.log ≡ releases r (close os st).1.log
  unfolding close
  close-Balanced st r b =
      let i = st.this in
      let P = λ (x : Reply (Unit {0}) × System S MacIdentity).
        acquisitions r x.1.log ≡ releases r x.1.log in
      let st₁ = releasing i.ref st in
      let st₂ = releasing i.kref st₁ in
      let st₃ = releasing i.cref st₂ in
      let clear = update (λ (i : MacIdentity). record i { ref = none; kref = none; cref = none }) in
      release_field-next P i.ref (release_field os i.kref >> (release_field os i.cref >> clear)) st
        (release_field-next P i.kref (release_field os i.cref >> clear) st₁ (
          release_field-next P i.cref clear st₂ (
            omega (
              arith,
              releasing-log r i.ref st,
              releasing-log r i.kref st₁,
              releasing-log r i.cref st₂,
              b r,
            ))))

  module _ (parse_certificate : Bytes → Option Certificate) where
    export_cert_ref-Keeps :
        (cert_ref : Ref) → Kept os (export_cert_ref os parse_certificate cert_ref)
    unfolding export_cert_ref
    export_cert_ref-Keeps cert_ref = search keeps_rules depth 12

    certificate-Keeps : Kept os (certificate os parse_certificate)
    unfolding certificate
    certificate-Keeps =
        search (keeps_rules, get_cert_ref-Keeps, export_cert_ref-Keeps, Keeps-update_crt) depth 12

    signer-Keeps : Kept os (signer os parse_certificate)
    unfolding signer
    signer-Keeps = search (keeps_rules, certificate-Keeps) depth 8

    key_or_nil-Balanced :
        (refs : List Ref) (r : Reply Certificate × System S MacIdentity)
        → Balanced owned refs r.1
        → Balanced owned refs (key_or_nil os parse_certificate r).1
    key_or_nil-Balanced refs (done crt, st) b = b
    key_or_nil-Balanced refs (failed e, st) b = b
    key_or_nil-Balanced refs (crashed, st) b = b

    public_key-Keeps : Kept os (public_key os parse_certificate)
    unfolding public_key
    public_key-Keeps = record {
      keeps_lem = λ refs st b.
          key_or_nil-Balanced refs (certificate os parse_certificate st)
            (certificate-Keeps.keeps_lem refs st b);
    }

    get_algo-Keeps : (hash : Hash) → Kept os (get_algo os parse_certificate hash)
    unfolding get_algo
    get_algo-Keeps hash = search (keeps_rules, certificate-Keeps) depth 8

    signature_or_error-Keeps :
        (csig cerr : Option Ref) → Kept os (signature_or_error os parse_certificate csig cerr)
    unfolding signature_or_error
    signature_or_error-Keeps csig (some cerr) = search keeps_rules depth 8
    signature_or_error-Keeps none none = search keeps_rules depth 8
    signature_or_error-Keeps (some csig) none = search keeps_rules depth 8

    sign-Keeps :
        (size : Hash → ℕ) (hash : Hash) (digest : Bytes)
        → Kept os (sign os parse_certificate size hash digest)
    unfolding sign
    sign-Keeps size hash digest =
        search
          (
            keeps_rules, get_key_ref-Keeps, bytes_to_cf_data-Keeps, get_algo-Keeps,
            signature_or_error-Keeps,
          )
          depth 16

    module _ (size : Hash → ℕ) where
      -- The state behind a call, whatever it returns.
      abbrev pub after_call : MacCall → System S MacIdentity → System S MacIdentity
      after_call MacCall.certificates st = (certificate os parse_certificate st).1
      after_call MacCall.signers st = (signer os parse_certificate st).1
      after_call MacCall.public_keys st = (public_key os parse_certificate st).1
      after_call MacCall.deletes st = (delete os st).1
      after_call (MacCall.signs hash digest) st = (sign os parse_certificate size hash digest st).1

      abbrev pub after_calls : List MacCall → System S MacIdentity → System S MacIdentity
      after_calls [] st = st
      after_calls (c ∷ calls) st = after_calls calls (after_call c st)

      after_call-Balanced :
          (c : MacCall) (st : System S MacIdentity)
          → Balanced owned [] st
          → Balanced owned [] (after_call c st)
      after_call-Balanced MacCall.certificates st b = certificate-Keeps.keeps_lem [] st b
      after_call-Balanced MacCall.signers st b = signer-Keeps.keeps_lem [] st b
      after_call-Balanced MacCall.public_keys st b = public_key-Keeps.keeps_lem [] st b
      after_call-Balanced MacCall.deletes st b = (delete-Keeps os).keeps_lem [] st b
      after_call-Balanced (MacCall.signs hash digest) st b =
          (sign-Keeps size hash digest).keeps_lem [] st b

      after_calls-Balanced :
          (calls : List MacCall) (st : System S MacIdentity)
          → Balanced owned [] st
          → Balanced owned [] (after_calls calls st)
      after_calls-Balanced [] st b = b
      after_calls-Balanced (c ∷ calls) st b =
          after_calls-Balanced calls (after_call c st) (after_call-Balanced c st b)

      -- An identity that newMacIdentity made, used by any calls of Certificate, Signer, Public, Delete
      -- and Sign, with whatever results, and then closed has released every reference as often as it
      -- acquired it.
      pub close-Released :
          (calls : List MacCall) (ref : Ref) (s : S) (r : Ref)
          → acquisitions r (close os (after_calls calls (opened ref s))).1.log
            ≡ releases r (close os (after_calls calls (opened ref s))).1.log
      unfolding new_mac_identity
      close-Released calls ref s r =
          close-Balanced (after_calls calls (opened ref s)) r
            (after_calls-Balanced calls (opened ref s) (λ r. omega arith))
