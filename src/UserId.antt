-- ===== src/UserId.antt =====
-- parse_user_id.go: the scanner that takes a user id "Full Name (Comment) <email@example.com>" apart.
pub mod Parts
pub mod Runs
pub mod Correct
mod Tests
use git_kmssign.Base.{ℕ, ◌+◌, Bool, true, false, [], ◌∷◌, length, slice, ◌==◌, if◌then◌else◌}
use git_kmssign.Base.Text.{Text, trim_space}

-- `state`, by the comments on its values 0 to 7.
pub data State : Type 0 where
  entering_name in_name entering_comment in_comment between entering_email in_email : State
  after_email : State

pub record Span : Type 0 where
  pub start : ℕ
  pub stop : ℕ

-- The variables of the loop: n, c, e and state.
pub record Scan : Type 0 where
  pub state : State
  pub n : Span
  pub c : Span
  pub e : Span

abbrev pub zero_span : Span
zero_span = record { start = 0; stop = 0 }

abbrev pub init : Scan
init = record { state = entering_name; n = zero_span; c = zero_span; e = zero_span }

-- The cases of the switch that a `fallthrough` enters too.
scan_name : ℕ → ℕ → Scan → Scan
scan_name offset rune s =
    if rune == b'('
    then record s { state = entering_comment; n = record { start = s.n.start; stop = offset } }
    else if rune == b'<'
    then record s { state = entering_email; n = record { start = s.n.start; stop = offset } }
    else s

scan_comment : ℕ → ℕ → Scan → Scan
scan_comment offset rune s =
    if rune == b')'
    then record s { state = between; c = record { start = s.c.start; stop = offset } }
    else s

scan_email : ℕ → ℕ → Scan → Scan
scan_email offset rune s =
    if rune == b'>'
    then record s { state = after_email; e = record { start = s.e.start; stop = offset } }
    else s

-- One round of the loop, by the state at its start.
pub step : State → ℕ → ℕ → Scan → Scan
unfolding scan_name scan_comment scan_email
step entering_name offset rune s =
    scan_name offset rune
      (record s { state = in_name; n = record { start = offset; stop = s.n.stop } })
step in_name offset rune s = scan_name offset rune s
step entering_comment offset rune s =
    scan_comment offset rune
      (record s { state = in_comment; c = record { start = offset; stop = s.c.stop } })
step in_comment offset rune s = scan_comment offset rune s
step between offset rune s = if rune == b'<' then record s { state = entering_email } else s
step entering_email offset rune s =
    scan_email offset rune
      (record s { state = in_email; e = record { start = offset; stop = s.e.stop } })
step in_email offset rune s = scan_email offset rune s
step after_email offset rune s = s

-- for offset, rune := range id
pub scan : ℕ → Text → Scan → Scan
scan offset [] s = s
scan offset (rune ∷ rest) s = scan (offset + 1) rest (step s.state offset rune s)

-- The switch behind the loop closes the span that the end of the text cut.
pub finish : State → ℕ → Scan → Scan
finish in_name len s = record s { n = record { start = s.n.start; stop = len } }
finish in_comment len s = record s { c = record { start = s.c.start; stop = len } }
finish in_email len s = record s { e = record { start = s.e.start; stop = len } }
finish _ len s = s

pub spans : Text → Scan
unfolding scan finish
spans id = let s = scan 0 id init in finish s.state (length id) s

-- name, comment and email.
pub parse_user_id : Text → Text × Text × Text
unfolding spans trim_space
parse_user_id id =
    let s = spans id in
    (
      trim_space (slice id s.n.start s.n.stop),
      trim_space (slice id s.c.start s.c.stop),
      trim_space (slice id s.e.start s.e.stop),
    )
