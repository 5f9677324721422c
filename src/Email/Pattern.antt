-- ===== src/Email/Pattern.antt =====
-- emailRegexp of utils.go, ^[a-zA-Z0-9_.+-]+@[a-zA-Z0-9-]+\.[a-zA-Z0-9-.]+$, as a matcher. The class in
-- front of the @ does not hold @, and the next does not hold the dot, so a match has one way to go.
use git_kmssign.Base.{
  ℕ, ◌≡◌, ◌≢◌, ◌↔◌, refl, ap, ◌∙◌, ◌⊎◌, Bool, true, false, [], ◌∷◌, ◌++◌, leb, ◌==◌, ◌&&◌, ◌||◌,
  All, if◌then◌else◌, Bool-cases, inl, inr, &&-split, ==_iff,
}
use git_kmssign.Base.Text.{Text}

pub is_alnum : ℕ → Bool
is_alnum c = (leb b'a' c && leb c b'z') || (leb b'A' c && leb c b'Z') || (leb b'0' c && leb c b'9')

unfoldable pub is_local : ℕ → Bool
unfolding is_alnum
is_local c = is_alnum c || c == b'_' || c == b'.' || c == b'+' || c == b'-'

unfoldable pub is_label : ℕ → Bool
unfolding is_alnum
is_label c = is_alnum c || c == b'-'

unfoldable pub is_tail : ℕ → Bool
unfolding is_alnum
is_tail c = is_alnum c || c == b'-' || c == b'.'

all_of : (ℕ → Bool) → Text → Bool
all_of p [] = true
all_of p (c ∷ cs) = p c && all_of p cs

non_empty : Text → Bool
non_empty [] = false
non_empty (c ∷ cs) = true

-- p+ up to the first `stop`, then `rest`; the flag says that p has matched a character already.
run_then : (ℕ → Bool) → ℕ → (Text → Bool) → Bool → Text → Bool
run_then p stop rest started [] = false
run_then p stop rest started (c ∷ cs) =
    let more = p c && run_then p stop rest true cs in if c == stop then started && rest cs else more

unfoldable pub matches_email : Text → Bool
unfolding run_then non_empty all_of
matches_email s =
    run_then is_local b'@' (run_then is_label b'.' (λ t. non_empty t && all_of is_tail t) false)
      false s

-- A word of the class p, with at least one character.
abbrev pub Word : (ℕ → Bool) → Text → Type 0
Word p w = (w ≢ []) × All (λ c. p c ≡ true) w

all_of_iff : (p : ℕ → Bool) (t : Text) → (all_of p t ≡ true) ↔ All (λ c. p c ≡ true) t
unfolding all_of
all_of_iff p [] = (λ h. tt, λ h. refl)
all_of_iff p (c ∷ cs) = (
  λ h. let (here, rest) = &&-split (p c) (all_of p cs) h in (here, (all_of_iff p cs).0 rest),
  λ (here, rest). rw (here, (all_of_iff p cs).1 rest) refl,
)

tail_iff : (t : Text) → ((non_empty t && all_of is_tail t) ≡ true) ↔ Word is_tail t
unfolding non_empty
tail_iff [] = (λ h. cc, λ (ne, h). absurd (ne refl))
tail_iff (c ∷ cs) =
    let (to, back) = all_of_iff is_tail (c ∷ cs) in (λ h. (λ e. cc, to h), λ (ne, h). back h)

-- How `run_then` splits a text that it accepts.
abbrev Split : (ℕ → Bool) → ℕ → (Text → Bool) → Bool → Text → Type 0
Split p stop rest started s =
    (w : Text) × (t : Text) × (s ≡ w ++ (stop ∷ t))
    × All (λ c. p c ≡ true) w
    × ((started ≡ true) ⊎ (w ≢ []))
    × (rest t ≡ true)

run_then_sound :
    (p : ℕ → Bool) (stop : ℕ) (rest : Text → Bool) (started : Bool) (s : Text)
    → run_then p stop rest started s ≡ true
    → Split p stop rest started s
unfolding run_then
run_then_sound p stop rest started [] h = cc
run_then_sound p stop rest started (c ∷ cs) h = elim (Bool-cases (c == stop)) [
  | inl end ↦
      let e = (==_iff c stop).0 end in
      let (go, accepted) = &&-split started (rest cs) (rw end at h) in
      ([], cs, rw e refl, tt, inl go, accepted)
  | inr on ↦
      let (here, more) = &&-split (p c) (run_then p stop rest true cs) (rw on at h) in
      let (w, t, e, all, _, accepted) = run_then_sound p stop rest true cs more in
      (c ∷ w, t, ap (λ l. c ∷ l) e, (here, all), inr (λ e'. cc), accepted)
]

run_then_complete :
    (p : ℕ → Bool) (stop : ℕ) (rest : Text → Bool) (started : Bool) (w t : Text)
    → p stop ≡ false
    → All (λ c. p c ≡ true) w
    → (started ≡ true) ⊎ (w ≢ [])
    → rest t ≡ true
    → run_then p stop rest started (w ++ (stop ∷ t)) ≡ true
unfolding run_then
run_then_complete p stop rest started [] t apart all (inl go) accepted =
    rw ((==_iff stop stop).1 refl, go, accepted) refl
run_then_complete p stop rest started [] t apart all (inr ne) accepted = absurd (ne refl)
run_then_complete p stop rest started (c ∷ w) t apart (here, all) go accepted =
    let on : (c == stop) ≡ false = elim (Bool-cases (c == stop)) [
      | inl same ↦ let e = (==_iff c stop).0 same in cc (ap p e)
      | inr other ↦ other
    ] in
    rw (on, here) (run_then_complete p stop rest true w t apart all (inl refl) accepted)

-- The matcher accepts exactly the texts local@label.tail that the regular expression describes.
pub matches_email_iff :
    (s : Text)
    → (matches_email s ≡ true) ↔ (
        (local : Text) × (label : Text) × (tail : Text) × (s
          ≡ local ++ (b'@' ∷ (label ++ (b'.' ∷ tail))))
        × Word is_local local
        × Word is_label label
        × Word is_tail tail)
unfolding matches_email
matches_email_iff s = (
  λ h.
      let (local, t, e, all, go, more) = run_then_sound is_local b'@' _ false s h in
      let (label, tail, e', all', go', last) = run_then_sound is_label b'.' _ false t more in
      (
        local,
        label,
        tail,
        e ∙ ap (λ l. local ++ (b'@' ∷ l)) e',
        (not_empty go, all),
        (not_empty go', all'),
        (tail_iff tail).0 last,
      ),
  λ (local, label, tail, e, (ne, all), (ne', all'), word). rw e (
      run_then_complete is_local b'@' _ false local _ (unfold is_local in refl) all (inr ne) (
        run_then_complete is_label b'.' _ false label tail (unfold is_label in refl) all' (inr ne')
          ((tail_iff tail).1 word))),
)
  where
    not_empty : {w : Text} → (false ≡ true) ⊎ (w ≢ []) → w ≢ []
    not_empty (inl e) = cc
    not_empty (inr ne) = ne
