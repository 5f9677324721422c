-- ===== src/UserId/Correct.antt =====
-- parseUserID against the plain splitting of Parts.
use git_kmssign.Base.{
  ℕ, suc, ◌+◌, ◌≤◌, ◌≡◌, refl, sym, ◌∙◌, ap, subst, Bool, true, false, [], ◌∷◌, ◌++◌, length, drop,
  slice, ◌==◌, arith, Bool-cases, inl, inr, slice-of_drop, drop-add_one, drop-append, drop-of_le,
  length-drop, All,
}
use git_kmssign.Base.Text.{Text, trim_space}
use git_kmssign.UserId.{Span, spans, parse_user_id}
use git_kmssign.UserId.Parts.{
  before, after, from, is_rune, opens, email_part, behind_name, user_id_parts,
}
use git_kmssign.UserId.Runs.{Spans, spans_of, span_of, past, email_span, spans_behind, spans-parts}

-- The texts that the spans delimit.
before-append-from : (p : ℕ → Bool) (l : Text) → before p l ++ from p l ≡ l
before-append-from p [] = refl
before-append-from p (r ∷ rs) = elim (Bool-cases (p r)) [
  | inl yes' ↦ rw yes' refl
  | inr no' ↦ rw no' (ap (λ t. r ∷ t) (before-append-from p rs))
]

slice-span_of :
    (p : ℕ → Bool) (offset : ℕ) (rest id : Text)
    → drop offset id ≡ rest
    → slice id (span_of p offset rest).start (span_of p offset rest).stop ≡ before p rest
slice-span_of p offset [] id e = refl
slice-span_of p offset (r ∷ rs) id e =
    slice-of_drop id (before p (r ∷ rs)) (from p (r ∷ rs)) offset _
      (e ∙ sym (before-append-from p (r ∷ rs))) refl

drop-past :
    (p : ℕ → Bool) (offset : ℕ) (rest id : Text)
    → drop offset id ≡ rest
    → drop (past p offset rest) id ≡ after p rest
drop-past p offset [] id e = drop-of_le _ id (omega (arith, ap length e, length-drop offset id))
drop-past p offset (r ∷ rs) id e = elim (Bool-cases (p r)) [
  | inl yes' ↦
      let e' : offset + 0 + 1 ≡ offset + 1 = omega arith in rw (yes', e') (drop-add_one offset id e)
  | inr no' ↦
      let e' : past p (offset + 1) rs ≡ offset + suc (length (before p rs)) + 1 = omega arith in
      rw (no', ← e') (drop-past p (offset + 1) rs id (drop-add_one offset id e))
]

-- The texts of the comment and the email.
abbrev text_of : Text → Span → Text
text_of id s = slice id s.start s.stop

text-email_span :
    (offset : ℕ) (rest id : Text)
    → drop offset id ≡ rest
    → text_of id (email_span offset rest) ≡ email_part (after (is_rune b'<') rest)
text-email_span offset rest id e =
    slice-span_of (is_rune b'>') _ (after (is_rune b'<') rest) id (drop-past _ offset rest id e)

texts-behind :
    (offset : ℕ) (rest id : Text)
    → drop offset id ≡ rest
    → (text_of id (spans_behind offset rest).0 ≡ (behind_name rest).0)
      × (text_of id (spans_behind offset rest).1 ≡ (behind_name rest).1)
texts-behind offset [] id e = (refl, refl)
texts-behind offset (r ∷ rs) id e =
    let e' = drop-add_one offset id e in
    elim (Bool-cases (r == b'(')) [
      | inl comment ↦ rw comment (
        slice-span_of (is_rune b')') (offset + 1) rs id e',
        text-email_span _ (after (is_rune b')') rs) id (drop-past _ (offset + 1) rs id e'),
      )
      | inr email ↦ rw email (refl, slice-span_of (is_rune b'>') (offset + 1) rs id e')
    ]

abbrev texts_of : Text → Spans → Text × Text × Text
texts_of id (n, c, e) =
    (trim_space (text_of id n), trim_space (text_of id c), trim_space (text_of id e))

texts-of_spans : (id : Text) → parse_user_id id ≡ texts_of id (spans_of (spans id))
unfolding parse_user_id
texts-of_spans id = refl

-- The scanner finds the parts that plain splitting finds, each with the space round it trimmed.
pub parse_user_id-parts :
    (id : Text)
    → parse_user_id id ≡ (
      trim_space (user_id_parts id).0,
      trim_space (user_id_parts id).1,
      trim_space (user_id_parts id).2,
    )
parse_user_id-parts id =
    let whole = sym (before-append-from opens id) in
    let name = slice-of_drop id (before opens id) (from opens id) 0 _ whole refl in
    let behind = drop-append 0 id (before opens id) (from opens id) _ whole refl in
    let (comment, email) = texts-behind (0 + length (before opens id)) (from opens id) id behind in
    texts-of_spans id ∙ ap (texts_of id) (spans-parts id) ∙ rw (name, comment, email) refl

abbrev pub InText : Text → Span → Type 0
InText id s = (s.start ≤ s.stop) × (s.stop ≤ length id)

abbrev pub AllFalse : (ℕ → Bool) → Text → Type 0
AllFalse p = All (λ r. p r ≡ false)

length-before : (p : ℕ → Bool) (l : Text) → length (before p l) ≤ length l
length-before p [] = omega arith
length-before p (r ∷ rs) = elim (Bool-cases (p r)) [
  | inl yes' ↦ rw yes' (omega arith)
  | inr no' ↦ rw no' (omega (arith, length-before p rs))
]

-- A span that is read from `offset` on lies within the text.
span_of_bounds :
    (p : ℕ → Bool) (offset : ℕ) (rest id : Text)
    → drop offset id ≡ rest
    → InText id (span_of p offset rest)
span_of_bounds p offset [] id e = omega arith
span_of_bounds p offset (r ∷ rs) id e =
    omega (arith, ap length e, length-drop offset id, length-before p (r ∷ rs))

spans_behind_bounds :
    (offset : ℕ) (rest id : Text)
    → drop offset id ≡ rest
    → InText id (spans_behind offset rest).0 × InText id (spans_behind offset rest).1
spans_behind_bounds offset [] id e = omega arith
spans_behind_bounds offset (r ∷ rs) id e =
    let e' = drop-add_one offset id e in
    elim (Bool-cases (r == b'(')) [
      | inl comment ↦ rw comment (
        span_of_bounds (is_rune b')') (offset + 1) rs id e',
        span_of_bounds (is_rune b'>') _ _ id
            (drop-past _ _ (after (is_rune b')') rs) id (drop-past _ (offset + 1) rs id e')),
      )
      | inr email ↦ rw email (omega arith, span_of_bounds (is_rune b'>') (offset + 1) rs id e')
    ]

-- The slice expressions behind the loop never panic: each span starts before it stops, within the
-- text.
pub spans_bounds :
    (id : Text) → InText id (spans id).n × InText id (spans id).c × InText id (spans id).e
spans_bounds id =
    let whole = sym (before-append-from opens id) in
    let behind = drop-append 0 id (before opens id) (from opens id) _ whole refl in
    let (comment, email) =
      spans_behind_bounds (0 + length (before opens id)) (from opens id) id behind in
    let short = length-before opens id in
    let at : Spans → Type 0 = λ s. InText id s.0 × InText id s.1 × InText id s.2 in
    subst at (sym (spans-parts id)) (omega arith, comment, email)

before-append :
    (p : ℕ → Bool) (l : Text) (d : ℕ) (rest : Text)
    → AllFalse p l
    → p d ≡ true
    → before p (l ++ (d ∷ rest)) ≡ l
before-append p [] d rest h e = rw e refl
before-append p (x ∷ l) d rest h e = rw h.0 (ap (λ t. x ∷ t) (before-append p l d rest h.1 e))

after-append :
    (p : ℕ → Bool) (l : Text) (d : ℕ) (rest : Text)
    → AllFalse p l
    → p d ≡ true
    → after p (l ++ (d ∷ rest)) ≡ rest
after-append p [] d rest h e = rw e refl
after-append p (x ∷ l) d rest h e = rw h.0 (after-append p l d rest h.1 e)

from-append :
    (p : ℕ → Bool) (l : Text) (d : ℕ) (rest : Text)
    → AllFalse p l
    → p d ≡ true
    → from p (l ++ (d ∷ rest)) ≡ d ∷ rest
from-append p [] d rest h e = rw e refl
from-append p (x ∷ l) d rest h e = rw h.0 (from-append p l d rest h.1 e)

-- "name(comment)gap<email>rest" is taken apart into the trimmed name, comment and email, where the
-- name holds no ( or <, the comment no ), the gap no < and the email no >.
pub parse_user_id-format :
    (name comment gap email rest : Text)
    → AllFalse opens name
    → AllFalse (is_rune b')') comment
    → AllFalse (is_rune b'<') gap
    → AllFalse (is_rune b'>') email
    → parse_user_id
        (name ++ (b'(' ∷ (comment ++ (b')' ∷ (gap ++ (b'<' ∷ (email ++ (b'>' ∷ rest))))))))
      ≡ (trim_space name, trim_space comment, trim_space email)
parse_user_id-format name comment gap email rest hn hc hg he =
    parse_user_id-parts _
    ∙ rw
        (
          before-append opens name b'(' _ hn refl,
          from-append opens name b'(' _ hn refl,
          before-append (is_rune b')') comment b')' _ hc refl,
          after-append (is_rune b')') comment b')' _ hc refl,
          after-append (is_rune b'<') gap b'<' _ hg refl,
          before-append (is_rune b'>') email b'>' rest he refl,
        )
        refl
