-- ===== src/Email/Tests.antt =====
-- Runs of the address functions of utils.go, and their theorems at concrete inputs.
use git_kmssign.Base.{◌≡◌, ◌↔◌, ◌⊎◌, refl, true, false, Any}
use git_kmssign.Base.Text.{codes}
use git_kmssign.Cert.{NameAttribute}
use git_kmssign.Cert.Samples.{leaf, alice}
use git_kmssign.Email.Pattern.{matches_email, is_local, is_label, is_tail}
use git_kmssign.Email.{cert_has_email}
use git_kmssign.Email.Correct.{Provides, cert_has_email_iff}

dotted : matches_email (codes "a.b+c@ex-ample.co.uk") ≡ true
unfolding matches_email is_local is_label is_tail
dotted = refl

two_ats : matches_email (codes "a@b@c.d") ≡ false
unfolding matches_email is_local is_label is_tail
two_ats = refl

cert_has_email_iff_example : (cert_has_email leaf alice ≡ true) ↔ (
    Any (λ x. x ≡ alice) leaf.email_addresses
    ⊎ Any (λ (n : NameAttribute). Provides alice n.kind n.value) leaf.subject_names)
cert_has_email_iff_example = cert_has_email_iff leaf alice
