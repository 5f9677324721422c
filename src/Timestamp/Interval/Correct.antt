-- ===== src/Timestamp/Interval/Correct.antt =====
-- Before and After of ietf-cms/timestamp/timestamp.go: what they say of the interval of time.
use git_kmssign.Base.{
  ℕ, ◌≡◌, refl, ap, ◌∙◌, ◌↔◌, true, ◌||◌, ◌+◌, ◌-◌, ◌*◌, ◌^◌, ◌<◌, ◌≤◌, zero, suc, arith,
}
use git_kmssign.Base.Int.{
  ℤ, pos, negsuc, ltb_ℤ, ◌≤ℤ◌, ◌+ℤ◌, scale, negate, wrap64, +ℤ_parts, negate_parts, wrap64_small,
  wrap64_negative, wrap64_large,
}
use git_kmssign.Protocol.Signers.{eq_ℤ}
use git_kmssign.Timestamp.{Accuracy, Info}
use git_kmssign.Timestamp.Interval.{duration, gen_time_max, gen_time_min, before, after}

scale_pos : (k n : ℕ) → scale k (pos n) ≡ pos (k * n)
unfolding scale
scale_pos k n = ground arith

+ℤ_pos : (m n : ℕ) → pos m +ℤ pos n ≡ pos (m + n)
unfolding ◌+ℤ◌
+ℤ_pos m n = ground arith

+ℤ_zero : (n : ℕ) → negsuc n +ℤ pos 0 ≡ negsuc n
unfolding ◌+ℤ◌
+ℤ_zero n = ground arith

-- The accuracy in nanoseconds.
abbrev pub nanoseconds : ℕ → ℕ → ℕ → ℕ
nanoseconds s m u = 1000000000 * s + 1000000 * m + 1000 * u

abbrev pub accuracy_of : ℕ → ℕ → ℕ → Accuracy
accuracy_of s m u = record { seconds = pos s; millis = pos m; micros = pos u }

duration-small :
    (s m u : ℕ)
    → nanoseconds s m u < 2 ^ 63
    → duration (accuracy_of s m u) ≡ pos (nanoseconds s m u)
unfolding duration
duration-small s m u h =
    rw
      (
        scale_pos 1000000000 s,
        scale_pos 1000000 m,
        scale_pos 1000 u,
        wrap64_small (1000000000 * s) (omega arith),
        wrap64_small (1000000 * m) (omega arith),
        wrap64_small (1000 * u) (omega arith),
        +ℤ_pos (1000000000 * s) (1000000 * m),
        wrap64_small (1000000000 * s + 1000000 * m) (omega arith),
        +ℤ_pos (1000000000 * s + 1000000 * m) (1000 * u),
        wrap64_small (nanoseconds s m u) (omega arith),
      )
      refl

at_most_iff : (a t : ℤ) → ((ltb_ℤ a t || eq_ℤ a t) ≡ true) ↔ (a ≤ℤ t)
unfolding eq_ℤ
at_most_iff (pos m) (pos n) = ground arith
at_most_iff (pos m) (negsuc n) = ground arith
at_most_iff (negsuc m) (pos n) = ground arith
at_most_iff (negsuc m) (negsuc n) = ground arith

at_least_iff : (a t : ℤ) → ((ltb_ℤ t a || eq_ℤ a t) ≡ true) ↔ (t ≤ℤ a)
unfolding eq_ℤ
at_least_iff (pos m) (pos n) = ground arith
at_least_iff (pos m) (negsuc n) = ground arith
at_least_iff (negsuc m) (pos n) = ground arith
at_least_iff (negsuc m) (negsuc n) = ground arith

negate_zero : negate (pos 0) ≡ pos 0
unfolding negate
negate_zero = refl

negate-suc : (n : ℕ) → negate (pos (suc n)) ≡ negsuc n
unfolding negate
negate-suc n = ground arith

negate_negsuc : (n : ℕ) → negate (negsuc n) ≡ pos (suc n)
unfolding negate
negate_negsuc n = ground arith

negate_small : (n : ℕ) → n < 2 ^ 63 → wrap64 (negate (pos n)) ≡ negate (pos n)
negate_small zero h = rw negate_zero (wrap64_small 0 h)
negate_small (suc n) h = rw (negate-suc n) (wrap64_negative n (omega arith))

-- Moving a duration to the other side of a comparison.
+ℤ_sides : (g d t : ℤ) → (t ≤ℤ g +ℤ negate d) ↔ (t +ℤ d ≤ℤ g)
+ℤ_sides g d t = (
  λ h. omega (arith, +ℤ_parts g (negate d), +ℤ_parts t d, negate_parts d),
  λ h. omega (arith, +ℤ_parts g (negate d), +ℤ_parts t d, negate_parts d),
)

-- If the accuracy fits an int64 number of nanoseconds, Before holds exactly if the whole interval round
-- the time of generation ends at or before a time, and After exactly if it starts at or after one.
pub before-after :
    (i : Info) (s m u : ℕ) (t : ℤ)
    → i.accuracy ≡ accuracy_of s m u
    → nanoseconds s m u < 2 ^ 63
    → ((before i t ≡ true) ↔ (i.gen_time +ℤ pos (nanoseconds s m u) ≤ℤ t))
      × ((after i t ≡ true) ↔ (t +ℤ pos (nanoseconds s m u) ≤ℤ i.gen_time))
unfolding before after gen_time_max gen_time_min
before-after i s m u t e h =
    let n = nanoseconds s m u in
    let d : duration i.accuracy ≡ pos n = ap duration e ∙ duration-small s m u h in
    let (to, back) = at_least_iff (i.gen_time +ℤ negate (pos n)) t in
    let (left, right) = +ℤ_sides i.gen_time (pos n) t in
    rw (d, negate_small n h)
      (at_most_iff (i.gen_time +ℤ pos n) t, (λ p. left (to p), λ p. back (right p)))

duration-large :
    (s : ℕ)
    → 2 ^ 63 ≤ 1000000000 * s
    → 1000000000 * s < 2 ^ 64
    → duration (accuracy_of s 0 0) ≡ negsuc (2 ^ 64 - 1 - 1000000000 * s)
unfolding duration
duration-large s lo hi =
    let n = 2 ^ 64 - 1 - 1000000000 * s in
    rw
      (
        scale_pos 1000000000 s,
        scale_pos 1000000 0,
        scale_pos 1000 0,
        wrap64_large (1000000000 * s) lo hi,
        wrap64_small 0 (omega arith),
        +ℤ_zero n,
        wrap64_negative n (omega arith),
        +ℤ_zero n,
        wrap64_negative n (omega arith),
      )
      refl

-- An accuracy of 2 ^ 63 to 2 ^ 64 nanoseconds in seconds wraps to a negative duration: Before and After
-- hold at the time of generation itself.
before-overflow :
    (i : Info) (s : ℕ)
    → i.accuracy ≡ accuracy_of s 0 0
    → 2 ^ 63 ≤ 1000000000 * s
    → 1000000000 * s < 2 ^ 64
    → (before i i.gen_time ≡ true) × (after i i.gen_time ≡ true)
unfolding before after gen_time_max gen_time_min
before-overflow i s e lo hi =
    let d = ap duration e ∙ duration-large s lo hi in
    let n = 2 ^ 64 - 1 - 1000000000 * s in
    rw (d, negate_negsuc n, wrap64_small (suc n) (omega arith))
      (
        (at_most_iff (i.gen_time +ℤ negsuc n) i.gen_time).1
            (omega (arith, +ℤ_parts i.gen_time (negsuc n))),
        (at_least_iff (i.gen_time +ℤ pos (suc n)) i.gen_time).1
            (omega (arith, +ℤ_parts i.gen_time (pos (suc n)))),
      )
