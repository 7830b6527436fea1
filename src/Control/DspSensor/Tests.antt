-- ===== src/Control/DspSensor/Tests.antt =====
-- trikControl/src/dspSensorBase.h: tests.
use trik_runtime.Prelude.{◌+◌, ◌-◌, ◌^◌, ◌/◌, ◌%◌, ◌≤◌, ◌≡◌, refl, arith}
use trik_runtime.Prelude.Int.{ℤ, pos, negsuc}
use trik_runtime.Control.DspSensor.{HsvRange, widen, half}
use trik_runtime.Control.DspSensor.Tolerance.{IsRange, widen-IsRange}

abbrev range : HsvRange
range = record { lower = 10; upper = 21 }

-- A factor of 2.
abbrev twice : ℤ → ℤ
twice (pos d) = pos d
twice (negsuc d) = negsuc d

widen-IsRange_example :
    IsRange (widen twice range)
    × ((widen twice range).lower ≤ 31 / 2)
    × (31 / 2 ≤ (widen twice range).upper)
    × (11 / 2 ≤ 11 → ((widen twice range).lower ≤ 10) × (21 ≤ (widen twice range).upper + 31 % 2))
widen-IsRange_example = widen-IsRange twice range 11 (omega arith, omega arith) refl (omega arith)

widened : widen twice range ≡ record { lower = 4; upper = 26 }
unfolding widen
widened = refl

-- A factor of 1 loses the upper end of a range of two values.
narrowed : widen half (record { lower = 0; upper = 1 }) ≡ record { lower = 0; upper = 0 }
unfolding widen
narrowed = refl

-- A tolerance of 2 ^ 31 - 1 wraps around where the middle is not 0.
overflows :
    widen (λ d. pos (2 ^ 31 - 1)) (record { lower = 1; upper = 1 })
    ≡ record { lower = 0; upper = 0 }
unfolding widen
overflows = refl
