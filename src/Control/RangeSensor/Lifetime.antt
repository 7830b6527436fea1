-- ===== src/Control/RangeSensor/Lifetime.antt =====
-- The calls of a sensor do not run into an exception.
use trik_runtime.Prelude.{
  ◌≡◌, List, Bool, true, false, Option, none, some, if◌then◌else◌, not, ◌&&◌,
}
use trik_runtime.Prelude.Int.{ℤ}
use trik_runtime.Control.DeviceState.{
  Status, off, starting, stopping, permanent_failure, temporary_failure, is_ready,
}
use trik_runtime.Control.RangeSensor.{RangeSensor, new, init, stop_worker, on_new_event}

pub data Call : Type 0 where
  inits : List Bool → Bool → Call  -- the stops that come while the event file opens
  stops : Bool → Call
  hears : ℤ → ℤ → ℤ → Call

unfoldable pub step : RangeSensor → Call → Option RangeSensor
step s (inits during opened) = init s during opened
step s (stops closed) = stop_worker s closed
step s (hears event_type code value) = some (on_new_event s event_type code value).0

-- init is for a sensor that is not ready.
abbrev pub is_timely : RangeSensor → Call → Bool
is_timely s (inits during opened) = if is_ready s.status then false else true
is_timely s _ = true

-- The states that an initialized sensor never has between two calls.
abbrev pub is_passing : Status → Bool
is_passing stopping = true
is_passing temporary_failure = true
is_passing _ = false

-- A sensor that has its event file and is in none of these states.
abbrev pub is_settled : RangeSensor → Bool
is_settled s = s.has_event_file && not (is_passing s.status)

-- A call has succeeded and leaves a settled sensor.
abbrev pub is_fine : Option RangeSensor → Bool
is_fine none = false
is_fine (some s) = is_settled s

-- The states in which init is called, and those that a stop during it leaves.
abbrev is_idle : Status → Bool
is_idle off = true
is_idle starting = true
is_idle permanent_failure = true
is_idle _ = false

abbrev in_status : RangeSensor → Status → RangeSensor
in_status s status = record s { status = status; has_event_file = true }

-- The sensors that a program can meet: made for a device that is off, initialized first, then
-- called in any order, where init never comes to a ready sensor. While init opens the event file, stop
-- may come any number of times.
pub data Life : RangeSensor → Type 0 where
  begins :
      {s t : RangeSensor} (is_median3 : Bool) (during : List Bool) (opened : Bool)
      (min_value max_value : ℤ)
      → new off is_median3 min_value max_value ≡ some s
      → init s during opened ≡ some t
      → Life t
  goes_on :
      {s t : RangeSensor} (c : Call) → Life s → is_timely s c ≡ true → step s c ≡ some t → Life t
