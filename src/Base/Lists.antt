-- ===== src/Base/Lists.antt =====
-- Lists measured, indexed and sliced by native numbers, under the library's names.
use Prim.Native.Nat.{ℕ, zero, suc, ◌+◌, ◌-◌, ◌≤◌, ◌<◌}
use mathlib.Core.Path.{◌≡◌, refl, ap}
use mathlib.Core.List.{List, [], ◌∷◌, ◌++◌}
use mathlib.Core.Bool.{Bool, true, false, ◌&&◌}
use mathlib.Core.Option.{Option, none, some}
use mathlib.Core.Logic.{◌↔◌, ◌⊎◌, inl, inr}
use native.Mathlib.Omega.{arith}
use git_kmssign.Base.Tests.{◌==◌, ==_iff, &&-split}

-- A byte slice; a byte is a number below 256.
abbrev pub Bytes : Type 0
Bytes = List ℕ

module _ {ℓ} {A : Type ℓ} where
  abbrev pub length : List A → ℕ
  length [] = 0
  length (x ∷ xs) = suc (length xs)

  abbrev pub get_elem? : List A → ℕ → Option A
  get_elem? [] i = none
  get_elem? (x ∷ xs) zero = some x
  get_elem? (x ∷ xs) (suc i) = get_elem? xs i

  abbrev pub take : ℕ → List A → List A
  take zero xs = []
  take (suc n) [] = []
  take (suc n) (x ∷ xs) = x ∷ take n xs

  abbrev pub drop : ℕ → List A → List A
  drop zero xs = xs
  drop (suc n) [] = []
  drop (suc n) (x ∷ xs) = drop n xs

  abbrev pub All {κ} : (A → Type κ) → List A → Type κ
  All P [] = Unit {κ}
  All P (x ∷ xs) = P x × All P xs

  abbrev pub Any : (A → Type 0) → List A → Type 0
  Any P [] = ⊥
  Any P (x ∷ xs) = P x ⊎ Any P xs

  -- xs[lo:hi] where lo ≤ hi ≤ len(xs).
  abbrev pub slice : List A → ℕ → ℕ → List A
  slice xs lo hi = take (hi - lo) (drop lo xs)

module _ {ℓ} {A : Type ℓ} where
  pub length-append : (xs ys : List A) → length (xs ++ ys) ≡ length xs + length ys
  length-append [] ys = omega arith
  length-append (x ∷ xs) ys = omega (arith, length-append xs ys)

  pub take-append : (n : ℕ) (xs ys : List A) → n ≡ length xs → take n (xs ++ ys) ≡ xs
  take-append zero [] ys h = refl
  take-append zero (x ∷ xs) ys h = absurd (omega arith)
  take-append (suc n) [] ys h = absurd (omega arith)
  take-append (suc n) (x ∷ xs) ys h = ap (λ t. x ∷ t) (take-append n xs ys (omega arith))

  pub take-append-drop : (n : ℕ) (xs : List A) → take n xs ++ drop n xs ≡ xs
  take-append-drop zero xs = refl
  take-append-drop (suc n) [] = refl
  take-append-drop (suc n) (x ∷ xs) = ap (λ t. x ∷ t) (take-append-drop n xs)

  pub length-take : (n : ℕ) (xs : List A) → n ≤ length xs → length (take n xs) ≡ n
  length-take zero xs h = refl
  length-take (suc n) [] h = absurd (omega arith)
  length-take (suc n) (x ∷ xs) h = ap suc (length-take n xs (omega arith))

  pub length-drop : (n : ℕ) (xs : List A) → length (drop n xs) ≡ length xs - n
  length-drop zero xs = omega arith
  length-drop (suc n) [] = omega arith
  length-drop (suc n) (x ∷ xs) = omega (arith, length-drop n xs)

  -- What `drop n` leaves, as a view of the list from position n on.
  pub get_elem?-of_drop :
      (n : ℕ) (l : List A) {x : A} {xs : List A} → drop n l ≡ x ∷ xs → get_elem? l n ≡ some x
  get_elem?-of_drop zero [] h = cc
  get_elem?-of_drop zero (y ∷ l) h = cc
  get_elem?-of_drop (suc n) [] h = cc
  get_elem?-of_drop (suc n) (y ∷ l) h = get_elem?-of_drop n l h

  pub drop-suc :
      (n : ℕ) (l : List A) {x : A} {xs : List A} → drop n l ≡ x ∷ xs → drop (suc n) l ≡ xs
  drop-suc zero [] h = cc
  drop-suc zero (y ∷ l) h = cc
  drop-suc (suc n) [] h = cc
  drop-suc (suc n) (y ∷ l) h = drop-suc n l h

  pub drop-append :
      (n : ℕ) (l xs ys : List A) (m : ℕ) → drop n l ≡ xs ++ ys → m ≡ n + length xs → drop m l ≡ ys
  drop-append n l [] ys m h e = let e' : m ≡ n = omega arith in rw e' h
  drop-append n l (x ∷ xs) ys m h e = drop-append (suc n) l xs ys m (drop-suc n l h) (omega arith)

  pub drop-add_one :
      (n : ℕ) (l : List A) {x : A} {xs : List A} → drop n l ≡ x ∷ xs → drop (n + 1) l ≡ xs
  drop-add_one n l {x} {xs} h = drop-append n l (x ∷ []) xs (n + 1) h (omega arith)

  pub drop-of_get_elem? :
      (n : ℕ) (l : List A) {x : A}
      → get_elem? l n ≡ some x
      → (drop n l ≡ x ∷ drop (n + 1) l) × (n < length l)
  drop-of_get_elem? n [] h = cc
  drop-of_get_elem? zero (y ∷ l) {x} h = let e : y ≡ x = cc in (rw e refl, omega arith)
  drop-of_get_elem? (suc n) (y ∷ l) h =
      let (e, lt) = drop-of_get_elem? n l h in
      let e' : suc n + 1 ≡ suc (n + 1) = omega arith in (rw e' e, omega arith)

  pub drop-of_le : (m : ℕ) (l : List A) → length l ≤ m → drop m l ≡ []
  drop-of_le zero [] h = refl
  drop-of_le zero (x ∷ l) h = absurd (omega arith)
  drop-of_le (suc m) [] h = refl
  drop-of_le (suc m) (x ∷ l) h = drop-of_le m l (omega arith)

  pub length-of_drop :
      (n : ℕ) (l xs : List A) → n ≤ length l → drop n l ≡ xs → length l ≡ n + length xs
  length-of_drop n l xs h e = omega (arith, ap length e, length-drop n l)

  pub slice-of_drop :
      (l xs ys : List A) (lo hi : ℕ)
      → drop lo l ≡ xs ++ ys
      → hi ≡ lo + length xs
      → slice l lo hi ≡ xs
  slice-of_drop l xs ys lo hi h e = rw h (take-append (hi - lo) xs ys (omega arith))

module _ {ℓ} {A : Type ℓ} where
  pub Any-append : (P : A → Type 0) (xs ys : List A) → Any P (xs ++ ys) ↔ (Any P xs ⊎ Any P ys)
  Any-append P [] ys = (λ h. inr h, λ h. elim h [ inl e ↦ elim e [ ] | inr q ↦ q ])
  Any-append P (x ∷ xs) ys =
      let (to, back) = Any-append P xs ys in
      (
        λ h. elim h [
          | inl p ↦ inl (inl p)
          | inr r ↦ elim (to r) [ inl p ↦ inl (inr p) | inr q ↦ inr q ]
        ],
        λ h. elim h [
          | inl p ↦ elim p [ inl p' ↦ inl p' | inr p' ↦ inr (back (inl p')) ]
          | inr q ↦ inr (back (inr q))
        ],
      )

-- bytes.Equal, and == on strings.
abbrev pub bytes_eq : List ℕ → List ℕ → Bool
bytes_eq [] [] = true
bytes_eq [] (y ∷ ys) = false
bytes_eq (x ∷ xs) [] = false
bytes_eq (x ∷ xs) (y ∷ ys) = x == y && bytes_eq xs ys

pub bytes_eq_iff : (xs ys : List ℕ) → (bytes_eq xs ys ≡ true) ↔ (xs ≡ ys)
bytes_eq_iff [] [] = (λ h. refl, λ h. refl)
bytes_eq_iff [] (y ∷ ys) = (λ h. cc, λ h. cc)
bytes_eq_iff (x ∷ xs) [] = (λ h. cc, λ h. cc)
bytes_eq_iff (x ∷ xs) (y ∷ ys) = (
  λ h.
      let (p, q) = &&-split (x == y) (bytes_eq xs ys) h in
      let e = (==_iff x y).0 p in let e' = (bytes_eq_iff xs ys).0 q in cc,
  λ h.
      let e : x ≡ y = cc in
      let e' : xs ≡ ys = cc in rw ((==_iff x y).1 e, (bytes_eq_iff xs ys).1 e') refl,
)

pub bytes_eq_refl : (xs : List ℕ) → bytes_eq xs xs ≡ true
bytes_eq_refl xs = (bytes_eq_iff xs xs).1 refl
