-- ===== src/Timestamp/Interval.antt =====
-- Accuracy and the interval of time of an Info in ietf-cms/timestamp/timestamp.go. Durations are
-- int64 numbers of nanoseconds. time.Time.Add is exact on the times that the source handles.
pub mod Correct
use git_kmssign.Base.{ℕ, Bool, ◌||◌, not, zero, suc, ◌==◌, false, ◌^◌, ◌*◌}
use git_kmssign.Base.Int.{ℤ, pos, negsuc, ltb_ℤ, ◌+ℤ◌, scale, negate, wrap64}
use git_kmssign.Protocol.Signers.{eq_ℤ}
use git_kmssign.Timestamp.{Accuracy, Info}

-- time.Second, time.Millisecond and time.Microsecond.
abbrev pub second : ℕ
second = 1000000000

abbrev millisecond : ℕ
millisecond = 1000000

abbrev microsecond : ℕ
microsecond = 1000

unfoldable pub duration : Accuracy → ℤ
duration a = wrap64 (
    wrap64 (wrap64 (scale second a.seconds) +ℤ wrap64 (scale millisecond a.millis))
    +ℤ wrap64 (scale microsecond a.micros))

unfoldable pub gen_time_max : Info → ℤ
gen_time_max i = i.gen_time +ℤ duration i.accuracy

unfoldable pub gen_time_min : Info → ℤ
gen_time_min i = i.gen_time +ℤ wrap64 (negate (duration i.accuracy))

unfoldable pub before : Info → ℤ → Bool
before i t = ltb_ℤ (gen_time_max i) t || eq_ℤ (gen_time_max i) t

unfoldable pub after : Info → ℤ → Bool
after i t = ltb_ℤ t (gen_time_min i) || eq_ℤ (gen_time_min i) t
