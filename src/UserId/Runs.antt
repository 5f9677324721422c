-- ===== src/UserId/Runs.antt =====
-- The loop of parse_user_id.go from each of its states on: where the spans start and end.
use git_kmssign.Base.{
  ℕ, suc, ◌+◌, ◌≡◌, refl, Bool, [], ◌∷◌, length, ◌==◌, arith, if◌then◌else◌, Bool-cases, inl, inr,
}
use git_kmssign.Base.Text.{Text}
use git_kmssign.UserId.{
  State, in_name, entering_comment, in_comment, between, entering_email, in_email, after_email,
  Span, Scan, zero_span, init, step, scan, finish, spans,
}
use git_kmssign.UserId.Parts.{before, after, from, is_rune, opens, email_part}

abbrev pub Spans : Type 0
Spans = Span × Span × Span

-- The loop from `offset` on, and the switch behind it.
run : ℕ → ℕ → Text → Scan → Scan
unfolding scan finish
run len offset rest s = let s' = scan offset rest s in finish s'.state len s'

run-cons :
    (len offset r : ℕ) (rs : Text) (s : Scan)
    → run len offset (r ∷ rs) s ≡ run len (offset + 1) rs (step s.state offset r s)
unfolding run
run-cons len offset r rs s = refl

run-nil : (len offset : ℕ) (s : Scan) → run len offset [] s ≡ finish s.state len s
unfolding run
run-nil len offset s = refl

abbrev pub spans_of : Scan → Spans
spans_of s = (s.n, s.c, s.e)

abbrev pub at : State → Span → Span → Span → Scan
at state n c e = record { state = state; n = n; c = c; e = e }

abbrev pub span : ℕ → ℕ → Span
span start stop = record { start = start; stop = stop }

abbrev pub span_of : (ℕ → Bool) → ℕ → Text → Span
span_of p offset [] = zero_span
span_of p offset (r ∷ rs) = span offset (offset + length (before p (r ∷ rs)))

run-after_email :
    (len offset : ℕ) (rest : Text) (n c e : Span)
    → spans_of (run len offset rest (at after_email n c e)) ≡ (n, c, e)
unfolding finish step
run-after_email len offset [] n c e = rw run-nil refl
run-after_email len offset (r ∷ rs) n c e = rw run-cons (run-after_email len (offset + 1) rs n c e)

run-in_email :
    (len offset : ℕ) (rest : Text) (n c : Span) (k stop : ℕ)
    → len ≡ offset + length rest
    → spans_of (run len offset rest (at in_email n c (span k stop)))
      ≡ (n, c, span k (offset + length (email_part rest)))
unfolding finish step
run-in_email len offset [] n c k stop e = rw (run-nil, e) refl
run-in_email len offset (r ∷ rs) n c k stop e = elim (Bool-cases (r == b'>')) [
  | inl end ↦
      let e' : offset + 0 ≡ offset = omega arith in
      rw (run-cons, end, e') (run-after_email len (offset + 1) rs n c (span k offset))
  | inr more ↦
      let e' : offset + 1 + length (email_part rs) ≡ offset + suc (length (email_part rs)) =
        omega arith in
      rw (run-cons, more, ← e') (run-in_email len (offset + 1) rs n c k stop (omega arith))
]

run-entering_email :
    (len offset : ℕ) (rest : Text) (n c : Span)
    → len ≡ offset + length rest
    → spans_of (run len offset rest (at entering_email n c zero_span))
      ≡ (n, c, span_of (is_rune b'>') offset rest)
unfolding finish step
run-entering_email len offset [] n c e = rw run-nil refl
run-entering_email len offset (r ∷ rs) n c e =
    rw run-cons (rw run-cons at (run-in_email len offset (r ∷ rs) n c offset 0 e))

-- Where `p` first passes, counted from `offset`, and one further.
abbrev pub past : (ℕ → Bool) → ℕ → Text → ℕ
past p offset rest = offset + length (before p rest) + 1

abbrev pub email_span : ℕ → Text → Span
email_span offset rest =
    span_of (is_rune b'>') (past (is_rune b'<') offset rest) (after (is_rune b'<') rest)

run-between :
    (len offset : ℕ) (rest : Text) (n c : Span)
    → len ≡ offset + length rest
    → spans_of (run len offset rest (at between n c zero_span)) ≡ (n, c, email_span offset rest)
unfolding finish step
run-between len offset [] n c e = rw run-nil refl
run-between len offset (r ∷ rs) n c e = elim (Bool-cases (r == b'<')) [
  | inl open' ↦
      let e' : offset + 0 + 1 ≡ offset + 1 = omega arith in
      rw (run-cons, open', e') (run-entering_email len (offset + 1) rs n c (omega arith))
  | inr more ↦
      let e' : past (is_rune b'<') (offset + 1) rs
          ≡ offset + suc (length (before (is_rune b'<') rs)) + 1 =
        omega arith in
      rw (run-cons, more, ← e') (run-between len (offset + 1) rs n c (omega arith))
]

run-in_comment :
    (len offset : ℕ) (rest : Text) (n : Span) (k stop : ℕ)
    → len ≡ offset + length rest
    → spans_of (run len offset rest (at in_comment n (span k stop) zero_span)) ≡ (
      n,
      span k (offset + length (before (is_rune b')') rest)),
      email_span (past (is_rune b')') offset rest) (after (is_rune b')') rest),
    )
unfolding finish step
run-in_comment len offset [] n k stop e = rw (run-nil, e) refl
run-in_comment len offset (r ∷ rs) n k stop e = elim (Bool-cases (r == b')')) [
  | inl close ↦
      let e' : offset + 0 ≡ offset = omega arith in
      rw (run-cons, close, e') (run-between len (offset + 1) rs n (span k offset) (omega arith))
  | inr more ↦
      let e' : offset + 1 + length (before (is_rune b')') rs)
          ≡ offset + suc (length (before (is_rune b')') rs)) =
        omega arith in
      rw (run-cons, more, ← e') (run-in_comment len (offset + 1) rs n k stop (omega arith))
]

abbrev pub behind_comment : ℕ → Text → Span
behind_comment offset rest =
    email_span (past (is_rune b')') offset rest) (after (is_rune b')') rest)

run-entering_comment :
    (len offset : ℕ) (rest : Text) (n : Span)
    → len ≡ offset + length rest
    → spans_of (run len offset rest (at entering_comment n zero_span zero_span))
      ≡ (n, span_of (is_rune b')') offset rest, behind_comment offset rest)
unfolding finish step
run-entering_comment len offset [] n e = rw run-nil refl
run-entering_comment len offset (r ∷ rs) n e =
    rw run-cons (rw run-cons at (run-in_comment len offset (r ∷ rs) n offset 0 e))

-- The spans of the comment and the email, from the rune that ends the name.
abbrev pub spans_behind : ℕ → Text → Span × Span
spans_behind offset [] = (zero_span, zero_span)
spans_behind offset (r ∷ rs) =
    if r == b'('
    then (span_of (is_rune b')') (offset + 1) rs, behind_comment (offset + 1) rs)
    else (zero_span, span_of (is_rune b'>') (offset + 1) rs)

abbrev pub with_name : Span → Span × Span → Spans
with_name n (c, e) = (n, c, e)

run-in_name :
    (len offset : ℕ) (rest : Text) (k stop : ℕ)
    → len ≡ offset + length rest
    → spans_of (run len offset rest (at in_name (span k stop) zero_span zero_span))
      ≡ with_name
          (span k (offset + length (before opens rest)))
          (spans_behind (offset + length (before opens rest)) (from opens rest))
unfolding finish step
run-in_name len offset [] k stop e = rw (run-nil, e) refl
run-in_name len offset (r ∷ rs) k stop e = elim (Bool-cases (r == b'(')) [
  | inl open' ↦
      let e' : offset + 0 ≡ offset = omega arith in
      rw (run-cons, open', e', open')
        (run-entering_comment len (offset + 1) rs (span k offset) (omega arith))
  | inr other ↦ elim (Bool-cases (r == b'<')) [
    | inl open' ↦
        let e' : offset + 0 ≡ offset = omega arith in
        rw (run-cons, other, open', e', other)
          (run-entering_email len (offset + 1) rs (span k offset) zero_span (omega arith))
    | inr more ↦
        let e' : offset + 1 + length (before opens rs) ≡ offset + suc (length (before opens rs)) =
          omega arith in
        rw (run-cons, other, more, ← e') (run-in_name len (offset + 1) rs k stop (omega arith))
  ]
]

spans-of_run : (id : Text) → spans id ≡ run (length id) 0 id init
unfolding spans run
spans-of_run id = refl

pub spans-parts :
    (id : Text)
    → spans_of (spans id)
      ≡ with_name
          (span 0 (0 + length (before opens id)))
          (spans_behind (0 + length (before opens id)) (from opens id))
unfolding step finish
spans-parts [] = rw (spans-of_run, run-nil) refl
spans-parts (r ∷ rs) =
    rw (spans-of_run, run-cons)
      (rw run-cons at (run-in_name (length (r ∷ rs)) 0 (r ∷ rs) 0 0 (omega arith)))
