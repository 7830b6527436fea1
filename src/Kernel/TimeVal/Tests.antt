-- ===== src/Kernel/TimeVal/Tests.antt =====
-- trikKernel/include/trikKernel/timeVal.h: tests.
use trik_runtime.Prelude.{ℕ, ◌+◌, ◌*◌, ◌^◌, ◌<◌, ◌≡◌, refl, arith}
use trik_runtime.Prelude.Int.{pos, negsuc}
use trik_runtime.Kernel.TimeVal.{time_val, minus, time_interval}
use trik_runtime.Kernel.TimeVal.Intervals.{minus-time_val}

-- The seconds wrap around between these times.
minus-time_val_example :
    (u : ℕ) × (minus (time_val (pos 274878) (pos 7)) (time_val (pos 274877) (pos 0)) ≡ pos u)
    × (274878 * 10 ^ 6 + 7 < 274877 * 10 ^ 6 + 0 + u + 448)
    × (274877 * 10 ^ 6 + 0 + u < 274878 * 10 ^ 6 + 7 + 448)
minus-time_val_example =
    minus-time_val 274878 7 274877 0 (omega arith) (omega arith) (omega arith) (omega arith)
      (omega arith) (omega arith)

one_second : minus (time_val (pos 11) (pos 0)) (time_val (pos 10) (pos 0)) ≡ pos 999936
unfolding minus time_val
one_second = refl

backwards : time_interval (pos 1) (pos 3) ≡ negsuc 511
unfolding time_interval
backwards = refl
