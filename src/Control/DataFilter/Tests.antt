-- ===== src/Control/DataFilter/Tests.antt =====
-- A spike among readings.
use trik_runtime.Prelude.{◌≡◌, refl, List, [], ◌∷◌}
use trik_runtime.Prelude.Int.{ℤ, pos, negsuc}
use trik_runtime.Control.DataFilter.{new, median3, filter_all, apply_filter, get_median3}
use trik_runtime.Control.DataFilter.Median.{AreMedians, filter_all-new}

abbrev readings : List ℤ
readings = pos 20 ∷ pos 100 ∷ pos 21 ∷ negsuc 0 ∷ []

filter_all-new_example :
    AreMedians (pos 0) (pos 90) readings (filter_all (new (pos 0) (pos 90) median3) readings).1
filter_all-new_example = filter_all-new (pos 0) (pos 90) readings

spike_run :
    (filter_all (new (pos 0) (pos 90) median3) readings).1 ≡ pos 20 ∷ pos 90 ∷ pos 21 ∷ pos 21 ∷ []
unfolding new filter_all apply_filter get_median3
spike_run = refl
