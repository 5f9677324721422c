-- ===== src/Stores/Windows/Reverse.antt =====
-- The loop of capiSignHash of certstore/certstore_windows.go reverses the signature.
use git_kmssign.Base.{
  ℕ, zero, suc, ◌+◌, ◌-◌, ◌/◌, ◌<◌, ◌≤◌, ◌≡◌, refl, sym, ap, ◌∙◌, ◌||◌, ltb, ◌==◌, if◌then◌else◌,
  length, length-append, [], ◌∷◌, ◌++◌, Bytes, arith,
}
use native.Mathlib.Decide.{dec_lt}
use mathlib.Core.List.{reverse, reverse-append}
use git_kmssign.Stores.Windows.Key.{element, set_element, swap, swap_below}

length-set_element : (l : Bytes) (i v : ℕ) → length (set_element l i v) ≡ length l
length-set_element [] i v = refl
length-set_element (b ∷ l) zero v = refl
length-set_element (b ∷ l) (suc i) v = ap suc (length-set_element l i v)

length-swap : (l : Bytes) (i j : ℕ) → length (swap l i j) ≡ length l
length-swap l i j = length-set_element _ j _ ∙ length-set_element l i _

element-set_element :
    (l : Bytes) (i v k : ℕ)
    → i < length l
    → element (set_element l i v) k ≡ (if k == i then v else element l k)
element-set_element [] i v k h = absurd (omega arith)
element-set_element (b ∷ l) zero v zero h = refl
element-set_element (b ∷ l) zero v (suc k) h = ground arith
element-set_element (b ∷ l) (suc i) v zero h = ground arith
element-set_element (b ∷ l) (suc i) v (suc k) h = ground (arith, element-set_element l i v k)

element-swap :
    (l : Bytes) (i j k : ℕ)
    → i < length l
    → j < length l
    → element (swap l i j) k
      ≡ (if k == j then element l i else (if k == i then element l j else element l k))
element-swap l i j k hi hj = ground (
  arith,
  element-set_element (set_element l i (element l j)) j (element l i) k,
  element-set_element l i (element l j) k,
  length-set_element l i (element l j),
)

length-swap_below : (i : ℕ) (l : Bytes) → length (swap_below i l) ≡ length l
unfolding swap_below
length-swap_below zero l = refl
length-swap_below (suc i) l = length-swap_below i _ ∙ length-swap l i _

-- The exchange of an element with that as far from the end.
abbrev swapped : (ℕ → ℕ) → ℕ → ℕ → ℕ → ℕ
swapped f n i k = if k == n - 1 - i then f i else (if k == i then f (n - 1 - i) else f k)

-- The elements whose index, or that from the end, is below the bound are exchanged.
abbrev exchanged : (ℕ → ℕ) → ℕ → ℕ → ℕ → ℕ
exchanged f n i k = if ltb k i || ltb (n - 1 - k) i then f (n - 1 - k) else f k

exchanged-swapped :
    (f : ℕ → ℕ) (n i k : ℕ)
    → suc i + suc i ≤ n
    → k < n
    → exchanged (swapped f n i) n i k ≡ exchanged f n (suc i) k
exchanged-swapped f n i k h hk = ground arith

exchanged_ext :
    (f g : ℕ → ℕ) (n i k : ℕ)
    → f k ≡ g k
    → f (n - 1 - k) ≡ g (n - 1 - k)
    → exchanged f n i k ≡ exchanged g n i k
exchanged_ext f g n i k here there = rw (here, there) refl

element-swap_below :
    (i : ℕ) (l : Bytes) (k : ℕ)
    → i + i ≤ length l
    → k < length l
    → element (swap_below i l) k ≡ exchanged (element l) (length l) i k
unfolding swap_below
element-swap_below zero l k h hk = ground arith
element-swap_below (suc i) l k h hk =
    let n = length l in
    let l' = swap l i (n - 1 - i) in
    let same : length l' ≡ n = length-swap l i (n - 1 - i) in
    let before = element-swap_below i l' k (omega (arith, same)) (omega (arith, same)) in
    let at = λ (j : ℕ). element-swap l i (n - 1 - i) j (omega arith) (omega arith) in
    before
    ∙ ap (λ m. exchanged (element l') m i k) same
    ∙ exchanged_ext (element l') (swapped (element l) n i) n i k (at k) (at (n - 1 - k))
    ∙ exchanged-swapped (element l) n i k h hk

element-append :
    (xs ys : Bytes) (k : ℕ)
    → element (xs ++ ys) k
      ≡ (if ltb k (length xs) then element xs k else element ys (k - length xs))
element-append [] ys k = ground arith
element-append (x ∷ xs) ys zero = ground arith
element-append (x ∷ xs) ys (suc k) = ground (arith, element-append xs ys k)

length-reverse : (l : Bytes) → length (reverse l) ≡ length l
length-reverse [] = refl
length-reverse (x ∷ l) =
    ap length (reverse-append (x ∷ []) l)
    ∙ omega (arith, length-append (reverse l) (x ∷ []), length-reverse l)

element-reverse :
    (l : Bytes) (k : ℕ) → k < length l → element (reverse l) k ≡ element l (length l - 1 - k)
element-reverse [] k h = absurd (omega arith)
element-reverse (x ∷ l) k h =
    ap (λ m. element m k) (reverse-append (x ∷ []) l)
    ∙ element-append (reverse l) (x ∷ []) k
    ∙ elim (dec_lt k (length l)) [
      | yes p ↦
          let e : suc (length l) - 1 - k ≡ suc (length l - 1 - k) = omega arith in
          rw e (ground (arith, length-reverse l, element-reverse l k p))
      | no p ↦
          let e : suc (length l) - 1 - k ≡ zero = omega arith in
          let last : k - length (reverse l) ≡ zero = omega (arith, length-reverse l) in
          rw (e, last) (ground (arith, length-reverse l))
    ]

list_ext :
    (xs ys : Bytes)
    → length xs ≡ length ys
    → ((k : ℕ) → k < length xs → element xs k ≡ element ys k)
    → xs ≡ ys
list_ext [] [] h e = refl
list_ext [] (y ∷ ys) h e = absurd (omega arith)
list_ext (x ∷ xs) [] h e = absurd (omega arith)
list_ext (x ∷ xs) (y ∷ ys) h e =
    let first : x ≡ y = e 0 (omega arith) in
    let others = list_ext xs ys (omega arith) (λ k p. e (suc k) (omega arith)) in cc

-- Behind the lower half, every element has been exchanged; the one in the middle is its own.
exchanged_half : (f : ℕ → ℕ) (n k : ℕ) → k < n → exchanged f n (n / 2) k ≡ f (n - 1 - k)
exchanged_half f n k h = ground arith

-- The loop of capiSignHash, over the lower half of the indices, reverses the signature.
pub swap_below-reverse : (sig : Bytes) → swap_below (length sig / 2) sig ≡ reverse sig
swap_below-reverse sig =
    list_ext _ _ (length-swap_below (length sig / 2) sig ∙ sym (length-reverse sig)) (λ k p.
      let q : k < length sig = omega (arith, length-swap_below (length sig / 2) sig) in
      element-swap_below (length sig / 2) sig k (omega arith) q
      ∙ exchanged_half (element sig) (length sig) k q
      ∙ sym (element-reverse sig k q))
