-- ===== src/Email/Correct.antt =====
-- Which addresses a certificate is taken to have (certHasEmail of utils.go).
use git_kmssign.Base.{
  ◌≡◌, ◌↔◌, ◌⊎◌, inl, inr, refl, ap, true, List, [], ◌∷◌, Option, none, some, ◌&&◌, Any, Any-append,
  bytes_eq, bytes_eq_iff, Bool-cases, &&-split, ||-split, ||-right,
}
use git_kmssign.Base.Text.{Text}
use git_kmssign.Cert.{Oid, Certificate, NameAttribute}
use git_kmssign.Email.Pattern.{matches_email}
use git_kmssign.Email.{
  oid_email_address, oid_common_name, is_email_kind, add_email, append_subject_emails, cert_emails,
  contains_text, cert_has_email,
}

contains_text_iff :
    (l : List Text) (email : Text) → (contains_text l email ≡ true) ↔ Any (λ x. x ≡ email) l
unfolding contains_text
contains_text_iff [] email = (λ h. cc, λ h. elim h [ ])
contains_text_iff (x ∷ l) email =
    let (to, back) = contains_text_iff l email in
    let (to', back') = bytes_eq_iff x email in
    (
      λ h. elim (||-split (bytes_eq x email) (contains_text l email) h) [
        | inl same ↦ inl (to' same)
        | inr later ↦ inr (to later)
      ],
      λ h. elim h [
        | inl e ↦ rw (back' e) refl
        | inr later ↦ ||-right (bytes_eq x email) _ (back later)
      ],
    )

-- What is provided by an attribute of the subject: emailAddress or CN, with a value of the form of an
-- address.
abbrev pub Provides : Text → Oid → Option Text → Type 0
Provides email kind value =
    (value ≡ some email)
    × ((kind ≡ oid_email_address) ⊎ (kind ≡ oid_common_name))
    × (matches_email email ≡ true)

is_email_kind_iff :
    (kind : Oid)
    → (is_email_kind kind ≡ true) ↔ ((kind ≡ oid_email_address) ⊎ (kind ≡ oid_common_name))
unfolding is_email_kind
is_email_kind_iff kind = (
  λ h. elim (||-split (bytes_eq kind oid_email_address) (bytes_eq kind oid_common_name) h) [
    | inl e ↦ inl ((bytes_eq_iff _ _).0 e)
    | inr e ↦ inr ((bytes_eq_iff _ _).0 e)
  ],
  λ h. elim h [
    | inl e ↦ rw ((bytes_eq_iff kind oid_email_address).1 e) refl
    | inr e ↦ ||-right (bytes_eq kind oid_email_address) _ ((bytes_eq_iff _ _).1 e)
  ],
)

abbrev Holds : Text → List Text → Type 0
Holds email l = Any (λ x. x ≡ email) l

add_email_iff :
    (emails : List Text) (kind : Oid) (value : Option Text) (email : Text)
    → Holds email (add_email emails kind value) ↔ (Holds email emails ⊎ Provides email kind value)
unfolding add_email
add_email_iff emails kind none email = (λ h. inl h, λ h. elim h [ inl p ↦ p | inr (e, _, _) ↦ cc ])
add_email_iff emails kind (some x) email =
    elim (Bool-cases (is_email_kind kind && matches_email x)) [
      | inl added ↦
          let (k, m) = &&-split _ _ added in
          let (to, back) = Any-append (λ (y : Text). y ≡ email) emails (x ∷ []) in
          rw added (
            λ h. elim (to h) [
              | inl p ↦ inl p
              | inr q ↦ elim q [
                | inl e ↦ inr (ap some e, (is_email_kind_iff kind).0 k, rw e at m)
                | inr none' ↦ elim none' [ ]
              ]
            ],
            λ h. elim h [ inl p ↦ back (inl p) | inr (e, _, _) ↦ back (inr (inl (cc))) ],
          )
      | inr skipped ↦ rw skipped (
        λ h. inl h,
        λ h. elim h [
          | inl p ↦ p
          | inr (e, k, m) ↦
              let same : x ≡ email = cc in
              let both : (is_email_kind kind && matches_email x) ≡ true =
                rw ((is_email_kind_iff kind).1 k, same) m in
              cc
        ],
      )
    ]

append_subject_emails_iff :
    (emails : List Text) (names : List NameAttribute) (email : Text)
    → Holds email (append_subject_emails emails names)
      ↔ (Holds email emails ⊎ Any (λ (n : NameAttribute). Provides email n.kind n.value) names)
unfolding append_subject_emails
append_subject_emails_iff emails [] email =
    (λ h. inl h, λ h. elim h [ inl p ↦ p | inr q ↦ elim q [ ] ])
append_subject_emails_iff emails (n ∷ names) email =
    let (to, back) = append_subject_emails_iff (add_email emails n.kind n.value) names email in
    let (to', back') = add_email_iff emails n.kind n.value email in
    (
      λ h. elim (to h) [
        | inl p ↦ elim (to' p) [ inl q ↦ inl q | inr q ↦ inr (inl q) ]
        | inr q ↦ inr (inr q)
      ],
      λ h. elim h [
        | inl p ↦ back (inl (back' (inl p)))
        | inr q ↦ elim q [ inl r ↦ back (inl (back' (inr r))) | inr r ↦ back (inr r) ]
      ],
    )

-- A certificate has an address exactly if it is one of its subject alternative names, or the value of
-- an emailAddress or CN attribute of its subject and of the form of an address.
pub cert_has_email_iff :
    (cert : Certificate) (email : Text)
    → (cert_has_email cert email ≡ true) ↔ (
        Any (λ x. x ≡ email) cert.email_addresses
        ⊎ Any (λ (n : NameAttribute). Provides email n.kind n.value) cert.subject_names)
unfolding cert_has_email cert_emails
cert_has_email_iff cert email =
    let (to, back) = append_subject_emails_iff cert.email_addresses cert.subject_names email in
    let (to', back') =
      contains_text_iff (append_subject_emails cert.email_addresses cert.subject_names) email in
    (λ h. to (to' h), λ h. back' (back h))
