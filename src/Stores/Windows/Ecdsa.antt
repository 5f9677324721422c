-- ===== src/Stores/Windows/Ecdsa.antt =====
-- The signatures of CNG for an ECDSA key, in certstore/certstore_windows.go.
use git_kmssign.Base.{
  ℕ, zero, suc, ◌+◌, ◌*◌, ◌/◌, ◌%◌, ◌^◌, ◌<◌, ◌≡◌, refl, ap, ◌∙◌, true, ◌==◌, ==_iff, length, take,
  drop, take-append, length-append, [], ◌∷◌, ◌++◌, Option, Bytes, arith,
}
use native.Mathlib.Nat.{pow-suc}
use git_kmssign.Stores.Run.{asn1_failed, or_fail}
use git_kmssign.Stores.System.{System}
use git_kmssign.Stores.Windows.{Api}
use git_kmssign.Stores.Windows.Key.{set_bytes, encode_ecdsa}

-- A number in a fixed number of bytes, the most significant first.
pub to_bytes : ℕ → ℕ → Bytes
to_bytes zero n = []
to_bytes (suc w) n = to_bytes w (n / 256) ++ (n % 256 ∷ [])

length-to_bytes : (w n : ℕ) → length (to_bytes w n) ≡ w
unfolding to_bytes
length-to_bytes zero n = refl
length-to_bytes (suc w) n =
    omega (arith, length-append (to_bytes w (n / 256)) (n % 256 ∷ []), length-to_bytes w (n / 256))

set_bytes-append :
    (acc : ℕ) (xs ys : Bytes) → set_bytes acc (xs ++ ys) ≡ set_bytes (set_bytes acc xs) ys
unfolding set_bytes
set_bytes-append acc [] ys = refl
set_bytes-append acc (x ∷ xs) ys = set_bytes-append (acc * 256 + x) xs ys

set_bytes-to_bytes : (w n : ℕ) → n < 256 ^ w → set_bytes 0 (to_bytes w n) ≡ n
unfolding set_bytes to_bytes
set_bytes-to_bytes zero n h = omega arith
set_bytes-to_bytes (suc w) n h =
    let power : 256 ^ suc w ≡ 256 * 256 ^ w = omega (arith, pow-suc 256 w) in
    set_bytes-append 0 (to_bytes w (n / 256)) (n % 256 ∷ [])
    ∙ ap (λ k. k * 256 + n % 256) (set_bytes-to_bytes w (n / 256) (omega (arith, power)))
    ∙ omega arith

drop-append_length : (xs ys : Bytes) → drop (length xs) (xs ++ ys) ≡ ys
drop-append_length [] ys = refl
drop-append_length (x ∷ xs) ys = drop-append_length xs ys

-- A raw signature of two numbers of one width is encoded as these two.
pub encode_ecdsa-to_bytes :
    {S I : Type 0} (os : Api S) (marshal : ℕ → ℕ → Option Bytes) (w r s : ℕ) (st : System S I)
    → r < 256 ^ w
    → s < 256 ^ w
    → encode_ecdsa os marshal (to_bytes w r ++ to_bytes w s) st
      ≡ or_fail (marshal r s) asn1_failed st
unfolding encode_ecdsa
encode_ecdsa-to_bytes os marshal w r s st hr hs =
    let raw = to_bytes w r ++ to_bytes w s in
    let n = length-to_bytes w r in
    let all : length raw ≡ w + w =
      omega (arith, length-append (to_bytes w r) (to_bytes w s), n, length-to_bytes w s) in
    let even : (length raw % 2 == 0) ≡ true = (==_iff _ _).1 (omega (arith, all)) in
    let half : length raw / 2 ≡ length (to_bytes w r) = omega (arith, all, n) in
    let front : take (length raw / 2) raw ≡ to_bytes w r =
      take-append (length raw / 2) (to_bytes w r) (to_bytes w s) half in
    let back : drop (length raw / 2) raw ≡ to_bytes w s =
      ap (λ m. drop m raw) half ∙ drop-append_length (to_bytes w r) (to_bytes w s) in
    rw (even, front, back, set_bytes-to_bytes w r hr, set_bytes-to_bytes w s hs) refl
