-- ===== src/Kernel/TimeVal.antt =====
-- trikKernel/include/trikKernel/timeVal.h: times in 32 bits, in units of 256 microseconds.
pub mod Intervals
mod Tests
use trik_runtime.Prelude.{ℕ, suc, ltb, ◌+◌, ◌-◌, ◌*◌, ◌/◌, ◌%◌, ◌^◌, if◌then◌else◌}
use trik_runtime.Prelude.Int.{ℤ, pos, negsuc}

-- Conversions between int and uint32_t.
abbrev pub to_uint32 : ℤ → ℕ
to_uint32 (pos n) = n % 2 ^ 32
to_uint32 (negsuc n) = 2 ^ 32 - 1 - n % 2 ^ 32

abbrev pub to_int32 : ℕ → ℤ
to_int32 n = if ltb n (2 ^ 31) then pos n else negsuc (2 ^ 32 - 1 - n)

-- An int shifted to the right by 8.
abbrev pub shift_right : ℤ → ℤ
shift_right (pos n) = pos (n / 2 ^ 8)
shift_right (negsuc n) = negsuc (n / 2 ^ 8)

-- TimeVal::TimeVal, the value of mTime.
unfoldable pub time_val : ℤ → ℤ → ℕ
time_val sec mcsec =
    (to_uint32 sec * 15625 % 2 ^ 32 / 2 ^ 2 + to_uint32 (shift_right mcsec)) % 2 ^ 32

-- A difference in 32 bits, shifted to the left by 8.
abbrev pub shifted_difference : ℕ → ℕ → ℕ
shifted_difference a b = (a + 2 ^ 32 - b) % 2 ^ 32 * 2 ^ 8 % 2 ^ 32

-- operator-.
unfoldable pub minus : ℕ → ℕ → ℤ
minus a b = to_int32 (shifted_difference a b)

-- TimeVal::timeInterval, of two packed times as int, by two's complement where an int overflows.
unfoldable pub time_interval : ℤ → ℤ → ℤ
time_interval a b = to_int32 (shifted_difference (to_uint32 a) (to_uint32 b))
