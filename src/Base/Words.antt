-- ===== src/Base/Words.antt =====
-- 64-bit integers, and the durations that the program computes in them.
use openwatch.Base.{ℕ, suc, ◌+◌, ◌-◌, ◌*◌, ◌^◌, ◌≤◌, ◌≡◌, arith, ltb, if◌then◌else◌}
use openwatch.Base.Numbers.{ℤ, pos, negsuc}
use Prim.Native.Nat.{◌%◌}

-- The `int64` of a bit pattern, in two's complement.
abbrev pub signed64 : ℕ → ℤ
signed64 m = if ltb m (2 ^ 63) then pos m else negsuc (2 ^ 64 - 1 - m)

-- The nanoseconds of a second.
abbrev pub second : ℕ
second = 1000000000

-- `time.Duration(n) * time.Second`, which wraps around.
unfoldable pub seconds_duration : ℤ → ℤ
seconds_duration (pos n) = signed64 (n * second % 2 ^ 64)
seconds_duration (negsuc n) = signed64 ((2 ^ 64 - suc n * second % 2 ^ 64) % 2 ^ 64)

-- The largest number of seconds that a duration holds.
abbrev pub max_seconds : ℕ
max_seconds = 9223372036

-- Up to there nothing wraps.
pub seconds_duration_exact : (n : ℕ) → n ≤ max_seconds → seconds_duration (pos n) ≡ pos (n * second)
unfolding seconds_duration
seconds_duration_exact n h = ground arith

-- The nanoseconds of a duration; none of a negative one.
abbrev pub nanos : ℤ → ℕ
nanos (pos n) = n
nanos (negsuc n) = 0

-- `t.Add(d)`
abbrev pub add_duration : ℕ → ℤ → ℕ
add_duration t (pos d) = t + d
add_duration t (negsuc d) = t - suc d

pub add_duration-le : (t : ℕ) (d : ℤ) → add_duration t d ≤ t + nanos d
add_duration-le t (pos d) = omega arith
add_duration-le t (negsuc d) = omega arith
