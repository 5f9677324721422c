-- ===== src/UserId/Parts.antt =====
-- The parts of a user id by plain splitting, with no state and no offsets: what parse_user_id.go
-- promises.
use git_kmssign.Base.{ℕ, Bool, [], ◌∷◌, ◌||◌, ◌==◌, if◌then◌else◌}
use git_kmssign.Base.Text.{Text}

-- The text in front of the first rune that passes the test, the text behind it, and the text from it.
abbrev pub before : (ℕ → Bool) → Text → Text
before p [] = []
before p (r ∷ rs) = if p r then [] else r ∷ before p rs

abbrev pub after : (ℕ → Bool) → Text → Text
after p [] = []
after p (r ∷ rs) = if p r then rs else after p rs

abbrev pub from : (ℕ → Bool) → Text → Text
from p [] = []
from p (r ∷ rs) = if p r then r ∷ rs else from p rs

abbrev pub is_rune : ℕ → ℕ → Bool
is_rune a r = r == a

abbrev pub opens : ℕ → Bool
opens r = r == b'(' || r == b'<'

abbrev pub email_part : Text → Text
email_part = before (is_rune b'>')

-- What follows the name: the comment and the email.
abbrev pub behind_name : Text → Text × Text
behind_name [] = ([], [])
behind_name (r ∷ rs) =
    if r == b'('
    then (before (is_rune b')') rs, email_part (after (is_rune b'<') (after (is_rune b')') rs)))
    else ([], email_part rs)

-- The name ends at the first ( or <; a comment ends at the next ), and the email is what stands
-- between the first < behind it and the next >.
abbrev pub user_id_parts : Text → Text × Text × Text
user_id_parts id =
    let (comment, email) = behind_name (from opens id) in (before opens id, comment, email)
