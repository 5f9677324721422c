-- ===== src/Select/Correct.antt =====
-- What findUserIdentity of command_sign.go selects.
use git_kmssign.Base.{
  ℕ, ◌≡◌, ◌≢◌, ◌↔◌, ◌⊎◌, inl, inr, refl, ap, ◌∙◌, Bool, true, false, List, [], ◌∷◌, ◌++◌, Bytes,
  length, Option, none, some, ==_iff, ||-split, ||-right, ◌==◌, ◌&&◌, ◌||◌, All, Any, arith,
  Bool-cases,
}
use git_kmssign.Base.Text.{Text, contains_rune}
use git_kmssign.Cert.{Certificate, NameAttribute, Identity}
use git_kmssign.Email.{normalize_email, cert_has_email}
use git_kmssign.Email.Correct.{Provides, cert_has_email_iff}
use git_kmssign.Fingerprint.{normalize_fingerprint, cert_fingerprint, cert_has_fingerprint}
use git_kmssign.Fingerprint.Correct.{cert_has_fingerprint_iff}
use git_kmssign.Select.{
  Selection, bad_user_id_format, found, not_found, has_user_id, first_identity, wanted,
  find_user_identity,
}

-- Neither an address nor a fingerprint.
abbrev pub nothing : Text × Bytes
nothing = ([], [])

is_nothing :
    (email : Text) (fpr : Bytes)
    → (length email == 0 && length fpr == 0) ≡ true
    → (email, fpr) ≡ nothing
is_nothing [] [] h = refl
is_nothing [] (b ∷ fpr) h = ground arith
is_nothing (c ∷ email) fpr h = ground arith

not_nothing :
    (email : Text) (fpr : Bytes)
    → (length email == 0 && length fpr == 0) ≡ false
    → (email, fpr) ≢ nothing
not_nothing [] [] h e = cc
not_nothing [] (b ∷ fpr) h e = let p = ap (λ (t : Text × Bytes). t.1) e in cc
not_nothing (c ∷ email) fpr h e = let p = ap (λ (t : Text × Bytes). t.0) e in cc

wanted-fingerprint :
    (local_user : Text) → contains_rune local_user b'@' ≡ false → (wanted local_user).0 ≡ []
unfolding wanted
wanted-fingerprint local_user no_at = rw no_at refl

-- What a user id asks for: an email, if it holds an @, and otherwise a fingerprint, with an empty email.
pub data Wants (local_user : Text) : Text × Bytes → Type 0 where
  by_email : Any (λ c. c ≡ b'@') local_user → Wants local_user (normalize_email local_user, [])
  by_fingerprint :
      ¬ Any (λ c. c ≡ b'@') local_user → Wants local_user ([], normalize_fingerprint local_user)

contains_rune_iff :
    (text : Text) (rune : ℕ) → (contains_rune text rune ≡ true) ↔ Any (λ c. c ≡ rune) text
unfolding contains_rune
contains_rune_iff [] rune = (λ h. cc, λ no. elim no [ ])
contains_rune_iff (c ∷ text) rune =
    let (to, back) = contains_rune_iff text rune in
    (
      λ h. elim (||-split (c == rune) (contains_rune text rune) h) [
        | inl here ↦ inl ((==_iff c rune).0 here)
        | inr later ↦ inr (to later)
      ],
      λ h. elim h [
        | inl here ↦ rw ((==_iff c rune).1 here) refl
        | inr later ↦ ||-right (c == rune) (contains_rune text rune) (back later)
      ],
    )

wanted-Wants : (local_user : Text) → Wants local_user (wanted local_user)
unfolding wanted
wanted-Wants local_user = elim (Bool-cases (contains_rune local_user b'@')) [
  | inl at ↦ rw at (by_email ((contains_rune_iff local_user b'@').0 at))
  | inr no_at ↦
      rw no_at (by_fingerprint (λ any. let at = (contains_rune_iff local_user b'@').1 any in cc))
]

module _ (sha1 : Bytes → Bytes) where
  -- A certificate has the email as an address, or a fingerprint that ends with the one that is given.
  abbrev pub NamesCert : Text × Bytes → Certificate → Type 0
  NamesCert (email, fpr) cert =
      (Any (λ x. x ≡ email) cert.email_addresses
        ⊎ Any (λ (n : NameAttribute). Provides email n.kind n.value) cert.subject_names)
      ⊎ ((fpr ≢ []) × ((front : Bytes) × (cert_fingerprint sha1 cert ≡ front ++ fpr)))

  -- The certificate of an identity, which has one, is such.
  pub data Names (want : Text × Bytes) : Option Certificate → Type 0 where
    names : {cert : Certificate} → NamesCert want cert → Names want (some cert)

  has_user_id_iff :
      (email : Text) (fpr : Bytes) (cert : Option Certificate)
      → (has_user_id sha1 email fpr cert ≡ true) ↔ Names (email, fpr) cert
  unfolding has_user_id
  has_user_id_iff email fpr none = (λ h. cc, λ n. elim n [ ])
  has_user_id_iff email fpr (some cert) =
      let (to_email, from_email) = cert_has_email_iff cert email in
      let (to_fpr, from_fpr) = cert_has_fingerprint_iff sha1 cert fpr in
      (
        λ h. elim (||-split (cert_has_email cert email) (cert_has_fingerprint sha1 cert fpr) h) [
          | inl e ↦ names (inl (to_email e))
          | inr f ↦ names (inr (to_fpr f))
        ],
        λ n. named n,
      )
    where
      named :
          Names (email, fpr) (some cert)
          → (cert_has_email cert email || cert_has_fingerprint sha1 cert fpr) ≡ true
      named (names (inl e)) = rw ((cert_has_email_iff cert email).1 e) refl
      named (names (inr f)) =
          ||-right (cert_has_email cert email) _ ((cert_has_fingerprint_iff sha1 cert fpr).1 f)

  -- The code's own test.
  abbrev is_named : Text × Bytes → Identity → Bool
  is_named (email, fpr) ident = has_user_id sha1 email fpr ident.certificate

  -- The three results: there is nothing to look for; the first of the identities that are named is taken;
  -- or none is named.
  pub data Selects (want : Text × Bytes) (idents : List Identity) : Selection → Type 0 where
    refused : want ≡ nothing → Selects want idents bad_user_id_format
    first_named :
        (front back : List Identity) (ident : Identity)
        → want ≢ nothing
        → idents ≡ front ++ (ident ∷ back)
        → All (λ (i : Identity). ¬ Names want i.certificate) front
        → Names want ident.certificate
        → Selects want idents (found ident)
    none_named :
        want ≢ nothing
        → All (λ (i : Identity). ¬ Names want i.certificate) idents
        → Selects want idents not_found

  Selects-cons :
      (want : Text × Bytes) (i : Identity) (idents : List Identity) {r : Selection}
      → want ≢ nothing
      → ¬ Names want i.certificate
      → Selects want idents r
      → Selects want (i ∷ idents) r
  Selects-cons want i idents ne off (refused e) = absurd (ne e)
  Selects-cons want i idents ne off (first_named front back ident _ e all named) =
      first_named (i ∷ front) back ident ne (ap (λ l. i ∷ l) e) (off, all) named
  Selects-cons want i idents ne off (none_named _ all) = none_named ne (off, all)

  first_identity-Selects :
      (email : Text) (fpr : Bytes) (idents : List Identity)
      → (email, fpr) ≢ nothing
      → Selects (email, fpr) idents (first_identity sha1 email fpr idents)
  unfolding first_identity
  first_identity-Selects email fpr [] ne = none_named ne tt
  first_identity-Selects email fpr (i ∷ idents) ne =
      let (to, back) = has_user_id_iff email fpr i.certificate in
      elim (Bool-cases (is_named (email, fpr) i)) [
        | inl here ↦ rw here (first_named [] idents i ne refl tt (to here))
        | inr later ↦ rw later (
            Selects-cons (email, fpr) i idents ne (λ n. let here = back n in cc)
              (first_identity-Selects email fpr idents ne))
      ]

  -- findUserIdentity looks for the email of a user id that holds an @, and otherwise for its fingerprint
  -- and an empty email. It returns the first identity of the store whose certificate has such an address
  -- or a fingerprint that ends so, nil if there is none, and an error if both are empty.
  pub find_user_identity-Selects :
      (idents : List Identity) (local_user : Text)
      → (want : Text × Bytes) × Wants local_user want
        × Selects want idents (find_user_identity sha1 idents local_user)
  unfolding find_user_identity
  find_user_identity-Selects idents local_user =
      let email = (wanted local_user).0 in
      let fpr = (wanted local_user).1 in
      (
        wanted local_user,
        wanted-Wants local_user,
        elim (Bool-cases (length email == 0 && length fpr == 0)) [
          | inl empty ↦ rw empty (refused (is_nothing email fpr empty))
          | inr some_id ↦
              rw some_id (first_identity-Selects email fpr idents (not_nothing email fpr some_id))
        ],
      )

  -- When a user id gives a fingerprint, the first identity is taken if its certificate has an empty
  -- address, whatever its fingerprint.
  find_user_identity-empty_email :
      (ident : Identity) (idents : List Identity) (local_user : Text) (cert : Certificate)
      → contains_rune local_user b'@' ≡ false
      → wanted local_user ≢ nothing
      → ident.certificate ≡ some cert
      → Any (λ x. x ≡ []) cert.email_addresses
      → find_user_identity sha1 (ident ∷ idents) local_user ≡ found ident
  unfolding find_user_identity first_identity has_user_id
  find_user_identity-empty_email ident idents local_user cert no_at some_id e empty =
      let email = (wanted local_user).0 in
      let fpr = (wanted local_user).1 in
      let has : cert_has_email cert email ≡ true =
        rw (wanted-fingerprint local_user no_at) ((cert_has_email_iff cert []).1 (inl empty)) in
      let named : is_named (wanted local_user) ident ≡ true =
        ap (λ c. has_user_id sha1 email fpr c) e ∙ rw has refl in
      elim (Bool-cases (length email == 0 && length fpr == 0)) [
        | inl none' ↦ absurd (some_id (is_nothing email fpr none'))
        | inr some' ↦ rw (some', named) refl
      ]
