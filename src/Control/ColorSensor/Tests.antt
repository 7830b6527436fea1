-- ===== src/Control/ColorSensor/Tests.antt =====
-- trikControl/src/colorSensor.cpp: tests.
use trik_runtime.Prelude.{ℕ, ◌*◌, ◌≡◌, refl, arith, some, and_then, [], ◌∷◌}
use trik_runtime.Prelude.Int.{pos}
use trik_runtime.Control.DeviceState.{off, permanent_failure, fail}
use trik_runtime.Control.ColorSensor.{new, read, on_result, components, no_colour}
use trik_runtime.Control.ColorSensor.Cells.Results.{on_results, read-on_result}

abbrev colors : ℕ → ℕ
colors k = 0x010203 * k

read-on_result_example :
    and_then
      (and_then (on_results (colors ∷ []) (new off (pos 2) (pos 3))) (on_result colors))
      (read (pos 2) (pos 1))
    ≡ some (components (colors 3))
read-on_result_example =
    read-on_result (colors ∷ []) colors 2 3 1 0 (omega arith) (omega arith) (omega arith)
      (omega arith) (omega arith) (omega arith)

third : components (colors 3) ≡ pos 3 ∷ pos 6 ∷ pos 9 ∷ []
third = refl

too_large : (new off (pos 4) (pos 1)).status ≡ permanent_failure
unfolding new fail
too_large = refl

outside : read (pos 0) (pos 1) (new off (pos 2) (pos 3)) ≡ some no_colour
unfolding read new
outside = refl
