-- ===== src/UserId/Tests.antt =====
-- Runs of parse_user_id.go's parser, and its theorems at concrete inputs.
use git_kmssign.Base.{◌≡◌, refl}
use git_kmssign.Base.Text.{Text, codes, trim_space}
use git_kmssign.UserId.{parse_user_id, step}
use git_kmssign.UserId.Parts.{user_id_parts}
use git_kmssign.UserId.Correct.{parse_user_id-parts}

abbrev sample : Text
sample = codes "Al B (c d) <a@b>x"

full : parse_user_id sample ≡ (codes "Al B", codes "c d", codes "a@b")
unfolding parse_user_id step
full = refl

parse_user_id-parts_example : parse_user_id sample ≡ (
  trim_space (user_id_parts sample).0,
  trim_space (user_id_parts sample).1,
  trim_space (user_id_parts sample).2,
)
parse_user_id-parts_example = parse_user_id-parts sample
