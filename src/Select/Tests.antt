-- ===== src/Select/Tests.antt =====
-- The theorems on findUserIdentity of command_sign.go at concrete inputs.
use git_kmssign.Base.{[], ◌∷◌, Bytes}
use git_kmssign.Base.Text.{Text}
use git_kmssign.Cert.Samples.{sample_sha1, leaf, identity, alice}
use git_kmssign.Select.{find_user_identity}
use git_kmssign.Select.Correct.{Wants, Selects, find_user_identity-Selects}

find_user_identity-Selects_example :
    (want : Text × Bytes) × Wants alice want
    × Selects sample_sha1 want
        (identity leaf ∷ [])
        (find_user_identity sample_sha1 (identity leaf ∷ []) alice)
find_user_identity-Selects_example =
    find_user_identity-Selects sample_sha1 (identity leaf ∷ []) alice
