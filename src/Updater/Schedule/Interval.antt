-- ===== src/Updater/Schedule/Interval.antt =====
-- internal/updater/watcher.go: the period of the ticker, for every setting.
use openwatch.Base.{ℕ, suc, zero, ◌*◌, ◌-◌, ◌^◌, ◌≤◌, ◌<◌, ◌≡◌, ◌↔◌, refl, arith, if◌then◌else◌}
use openwatch.Base.Numbers.{ℤ, pos, negsuc, non_positive}
use openwatch.Base.Words.{
  second, signed64, seconds_duration, seconds_duration_exact, max_seconds, nanos,
}
use openwatch.Updater.Schedule.{default_interval, interval_of}
use Prim.Native.Nat.{◌%◌}

signed64-lt : (m : ℕ) → nanos (signed64 m) < 2 ^ 63
signed64-lt m = ground arith

seconds_duration-lt : (n : ℤ) → nanos (seconds_duration n) < 2 ^ 63
unfolding seconds_duration
seconds_duration-lt (pos n) = signed64-lt (n * second % 2 ^ 64)
seconds_duration-lt (negsuc n) = signed64-lt ((2 ^ 64 - suc n * second % 2 ^ 64) % 2 ^ 64)

-- A period in its place where it is positive.
positive_or_default :
    (d : ℤ)
    → nanos d < 2 ^ 63
    → (0 < nanos (if non_positive d then default_interval else d))
      × (nanos (if non_positive d then default_interval else d) < 2 ^ 63)
positive_or_default (pos zero) h = (omega arith, omega arith)
positive_or_default (pos (suc n)) h = (omega arith, h)
positive_or_default (negsuc n) h = (omega arith, omega arith)

pub interval_of_bounds : (n : ℤ) → (0 < nanos (interval_of n)) × (nanos (interval_of n) < 2 ^ 63)
unfolding interval_of
interval_of_bounds n = positive_or_default (seconds_duration n) (seconds_duration-lt n)

kept_positive : (m : ℕ) → 0 < m → (if non_positive (pos m) then default_interval else pos m) ≡ pos m
kept_positive zero h = absurd (omega (arith, h))
kept_positive (suc m) h = refl

interval_of-kept : (n : ℕ) → 0 < n → n ≤ max_seconds → interval_of (pos n) ≡ pos (n * second)
unfolding interval_of
interval_of-kept n p h =
    rw (seconds_duration_exact n h) (kept_positive (n * second) (omega (arith, p)))

-- For a positive setting the ticker's period is positive and below 2^63 nanoseconds, and it is
-- that number of seconds exactly when the setting is at most 9223372036.
pub interval_of_exact :
    (n : ℕ)
    → 0 < n
    → ((0 < nanos (interval_of (pos n))) × (nanos (interval_of (pos n)) < 2 ^ 63))
      × (interval_of (pos n) ≡ pos (n * second) ↔ n ≤ max_seconds)
interval_of_exact n p = (interval_of_bounds (pos n), (fits, interval_of-kept n p))
  where
    fits : interval_of (pos n) ≡ pos (n * second) → n ≤ max_seconds
    fits h =
        let small : nanos (pos (n * second)) < 2 ^ 63 = rw h at ((interval_of_bounds (pos n)).1) in
        omega (arith, small)
