-- ===== src/Control/RangeSensor/Tests.antt =====
-- A sensor with a median filter.
use trik_runtime.Prelude.{◌≡◌, refl, and_then, none, true, false, some, List, [], ◌∷◌}
use trik_runtime.Prelude.Int.{ℤ, pos, negsuc}
use trik_runtime.Control.DeviceState.{off, ready, start, become_ready, become_off}
use trik_runtime.Control.DataFilter.{DataFilter, median3}
use trik_runtime.Control.RangeSensor.{RangeSensor, new, init, stop_worker, stop_all, after_open}

abbrev median : DataFilter
median = record { kind = median3; read_data1 = pos 0; read_data2 = pos 90 }

abbrev opened : RangeSensor
opened = record {
  status = ready;
  has_event_file = true;
  is_median3 = true;
  min_value = pos 0;
  max_value = pos 90;
  data_filter = some median;
  distance = negsuc 0;
  raw_distance = negsuc 0;
}

-- A sensor that is stopped while it waits for its event file is off.
aborted :
    and_then (new off true (pos 0) (pos 90)) (λ s. init s (false ∷ []) false)
    ≡ some (record opened { status = off; data_filter = none })
unfolding new init stop_all stop_worker after_open start become_ready become_off
aborted = refl

abbrev events : List (ℤ × ℤ × ℤ)
events =
    (pos 3, pos 25, pos 20)
    ∷ (pos 3, pos 40, pos 700)
    ∷ (pos 0, pos 0, pos 0)
    ∷ (pos 3, pos 25, pos 100)
    ∷ []
