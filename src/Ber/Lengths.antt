-- ===== src/Ber/Lengths.antt =====
-- lengthLength, marshalLongLength and encodeLength of ietf-cms/protocol/ber.go, and the reading of
-- what they write.
use git_kmssign.Base.{
  ℕ, zero, suc, ◌+◌, ◌-◌, ◌/◌, ◌%◌, ◌^◌, ◌≤◌, ◌<◌, ◌≡◌, refl, ◌⊎◌, inl, inr, bit_or, ◌∷◌, ltb, leb,
  arith, ltb→lt, ltb→ge, ge→ltb, Bool-cases,
}
use git_kmssign.Ber.{length_length_loop, length_length, marshal_long_length, encode_length}
use git_kmssign.Ber.Format.{IsLength, short_form, long_form}

one_power_more : (k i : ℕ) → (k ≡ 0) ⊎ (256 ^ k ≤ i / 256) → 255 < i → 256 ^ suc k ≤ i
one_power_more k i (inl e) h = rw e (omega arith)
one_power_more k i (inr le) h = omega arith

-- With enough fuel the loop counts the bytes of i: one more than the power of 256 below it.
length_length_loop_lem :
    (g f i n : ℕ)
    → g ≤ f
    → i < 256 ^ suc g
    → (k : ℕ) × (length_length_loop f i n ≡ n + k)
      × (k ≤ g)
      × (i < 256 ^ suc k)
      × ((k ≡ 0) ⊎ (256 ^ k ≤ i))
unfolding length_length_loop
length_length_loop_lem zero zero i n le h = (0, omega arith, omega arith, h, inl refl)
length_length_loop_lem zero (suc f) i n le h =
    (0, rw (ge→ltb 255 i (omega arith)) (omega arith), omega arith, h, inl refl)
length_length_loop_lem (suc g) zero i n le h = absurd (omega arith)
length_length_loop_lem (suc g) (suc f) i n le h = elim (Bool-cases (ltb 255 i)) [
  | inl more ↦
      let (k, e, le', lt, ge) =
        length_length_loop_lem g f (i / 256) (n + 1) (omega arith) (omega arith) in
      let big = ltb→lt 255 i more in
      (suc k, rw more (omega arith), omega arith, omega arith, inr (one_power_more k i ge big))
  | inr done ↦ (0, rw done (omega arith), omega arith, omega (arith, ltb→ge 255 i done), inl refl)
]

length_length_lem :
    (g i : ℕ)
    → g ≤ 8
    → i < 256 ^ suc g
    → (k : ℕ) × (length_length i ≡ suc k) × (k ≤ g) × (i < 256 ^ suc k) × ((k ≡ 0) ⊎ (256 ^ k ≤ i))
unfolding length_length
length_length_lem g i le h =
    let (k, e, le', lt, ge) = length_length_loop_lem g 8 i 1 le h in (k, omega arith, le', lt, ge)

-- lengthLength gives the number of bytes of the big-endian form with no leading zero, for every
-- length that fits 64 bits.
pub length_length_bounds :
    (i : ℕ)
    → i < 2 ^ 64
    → (0 < length_length i)
      × (length_length i ≤ 8)
      × (i < 256 ^ length_length i)
      × (0 < i → 256 ^ (length_length i - 1) ≤ i)
length_length_bounds i h =
    let (k, e, le, lt, ge) = length_length_lem 7 i (omega arith) (omega arith) in
    rw e (omega arith, omega arith, lt, λ p. rw (pred_lem k) (low k ge p))
  where
    pred_lem : (k : ℕ) → suc k - 1 ≡ k
    pred_lem k = omega arith

    low : (k : ℕ) → (k ≡ 0) ⊎ (256 ^ k ≤ i) → 0 < i → 256 ^ k ≤ i
    low k (inl e) p = rw e (omega arith)
    low k (inr le) p = le

-- The long form of n, by the number of its bytes.
marshal_long_length-IsLength :
    (k n : ℕ)
    → k ≤ 3
    → n < 256 ^ suc k
    → n < 2 ^ 31
    → 0 < n
    → (k ≡ 0) ⊎ (256 ^ k ≤ n)
    → {l : ℕ} → l ≡ 129 + k
    → IsLength n (l ∷ marshal_long_length (suc k) n)
unfolding marshal_long_length
marshal_long_length-IsLength zero n le lt small p ge e =
    long_form _ _ (omega arith) (omega arith) (λ h. omega arith) (omega arith) (omega arith)
marshal_long_length-IsLength (suc zero) n le lt small p (inr ge) e =
    long_form _ _ (omega arith) (omega arith) (λ h. omega arith) (omega arith) (omega arith)
marshal_long_length-IsLength (suc (suc zero)) n le lt small p (inr ge) e =
    long_form _ _ (omega arith) (omega arith) (λ h. omega arith) (omega arith) (omega arith)
marshal_long_length-IsLength (suc (suc (suc zero))) n le lt small p (inr ge) e =
    long_form _ _ (omega arith) (omega arith) (λ h. omega arith) (omega arith) (omega arith)
marshal_long_length-IsLength (suc k) n le lt small p (inl z) e = absurd (omega arith)
marshal_long_length-IsLength (suc (suc (suc (suc k)))) n le lt small p ge e = absurd (omega arith)

-- The first byte of a long form: 0x80 | k for the counts that a length below 2 ^ 31 has.
count_byte : (k : ℕ) → k ≤ 3 → bit_or 0x80 (suc k % 256) ≡ 129 + k
count_byte zero h = refl
count_byte (suc zero) h = refl
count_byte (suc (suc zero)) h = refl
count_byte (suc (suc (suc zero))) h = refl
count_byte (suc (suc (suc (suc k)))) h = absurd (omega arith)

-- encodeLength writes a definite length that stands for its argument, for every length below 2 ^ 31.
pub encode_length-IsLength : (n : ℕ) → n < 2 ^ 31 → IsLength n (encode_length n)
unfolding encode_length
encode_length-IsLength n h = elim (Bool-cases (leb 128 n)) [
  | inl long ↦
      let (k, e, le, lt, ge) = length_length_lem 3 n (omega arith) (omega arith) in
      rw (long, e) (marshal_long_length-IsLength k n le lt h (ground arith) ge (count_byte k le))
  | inr short ↦ rw (short, small n (ground arith)) (short_form (ground arith))
]
  where
    small : (m : ℕ) → m < 128 → m % 256 ≡ m
    small m p = omega arith
