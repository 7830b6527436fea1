-- ===== src/Control/RangeSensor.antt =====
-- trikControl/src/rangeSensorWorker.cpp: a range sensor. `none` stands for an exception of the
-- device state, or for a call of an event file that does not exist.
pub mod Lifetime
pub mod Readings
mod Tests
use trik_runtime.Prelude.{
  ℕ, ◌≡◌, Bool, true, false, Option, none, some, and_then, List, [], ◌∷◌, ◌++◌, if◌then◌else◌,
}
use trik_runtime.Prelude.Int.{ℤ, pos, negsuc, eq_ℤ}
use trik_runtime.Control.DeviceState.{
  Status, off, Outcome, done, thrown, is_ready, is_starting, fail, start, become_ready, stop,
  become_off,
}
use trik_runtime.Control.DataFilter.{DataFilter, median3, apply_filter}

pub record RangeSensor : Type 0 where
  pub status : Status
  pub has_event_file : Bool
  pub is_median3 : Bool  -- mFilterName == "median3"
  pub min_value : ℤ
  pub max_value : ℤ
  pub data_filter : Option DataFilter
  pub distance : ℤ
  pub raw_distance : ℤ

abbrev pub ev_syn : ℤ
ev_syn = pos 0

abbrev pub ev_abs : ℤ
ev_abs = pos 3

abbrev pub abs_distance : ℤ
abs_distance = pos 25

abbrev pub abs_misc : ℤ
abs_misc = pos 40

abbrev pub set_status : RangeSensor → Outcome → Option RangeSensor
set_status s (done t) = some (record s { status = t })
set_status s thrown = none

-- The constructor, for a device state that is given.
unfoldable pub new : Status → Bool → ℤ → ℤ → Option RangeSensor
new status is_median3 min_value max_value =
    set_status
      (record {
        status = status;
        has_event_file = false;
        is_median3 = is_median3;
        min_value = min_value;
        max_value = max_value;
        data_filter = none;
        distance = negsuc 0;
        raw_distance = negsuc 0;
      })
      (start status)

-- RangeSensorWorker::stop, where `closed` is the answer of the event file.
unfoldable pub stop_worker : RangeSensor → Bool → Option RangeSensor
stop_worker s closed =
    if is_ready s.status
    then and_then (set_status s (stop s.status))
        (λ t. if closed then set_status t (become_off t.status) else set_status t (fail t.status))
    else if is_starting s.status
    then (if s.has_event_file
        then and_then (set_status s (become_ready s.status))
            (λ t. set_status t (become_off t.status))
        else none)
    else some s

abbrev pub set_filter : RangeSensor → RangeSensor
set_filter s =
    if s.is_median3
    then record s {
      data_filter =
          some (record { kind = median3; read_data1 = s.min_value; read_data2 = s.max_value });
    }
    else s

abbrev pub is_off : Status → Bool
is_off off = true
is_off _ = false

-- The stops that come while the event file waits for its driver in an event loop of its own.
abbrev pub stop_all : List Bool → RangeSensor → Option RangeSensor
unfolding stop_worker
stop_all [] s = some s
stop_all (closed ∷ more) s = and_then (stop_worker s closed) (stop_all more)

-- What init does after open has answered: the device state is asked again, since a stop may have come.
unfoldable pub after_open : RangeSensor → Bool → Option RangeSensor
after_open s opened =
    if opened
    then and_then (set_status s (become_ready s.status)) (λ u. some (set_filter u))
    else if is_off s.status
    then some s
    else and_then (set_status s (fail s.status)) (λ u. some (set_filter u))

-- RangeSensorWorker::init, with the stops that come during open and its answer.
unfoldable pub init : RangeSensor → List Bool → Bool → Option RangeSensor
unfolding stop_all after_open
init s stops opened =
    and_then (stop_all stops (record s { has_event_file = true })) (λ t. after_open t opened)

abbrev pub filtered : Option DataFilter → ℤ → Option DataFilter × ℤ
filtered none value = (none, value)
filtered (some f) value = let (g, m) = apply_filter f value in (some g, m)

abbrev pub new_distance : RangeSensor → ℤ → RangeSensor
new_distance s value =
    let (f, d) = filtered s.data_filter value in record s { data_filter = f; distance = d }

-- onNewEvent, with the distances of the signal newData.
unfoldable pub on_new_event : RangeSensor → ℤ → ℤ → ℤ → RangeSensor × List (ℤ × ℤ)
on_new_event s event_type code value =
    if is_ready s.status
    then (if eq_ℤ event_type ev_abs
        then (if eq_ℤ code abs_distance
            then (new_distance s value, [])
            else if eq_ℤ code abs_misc
            then (record s { raw_distance = value }, [])
            else (s, []))
        else if eq_ℤ event_type ev_syn
        then (s, (s.distance, s.raw_distance) ∷ [])
        else (s, []))
    else (s, [])

unfoldable pub read : RangeSensor → ℤ
read s = if is_ready s.status then s.distance else negsuc 0

unfoldable pub read_raw_data : RangeSensor → ℤ
read_raw_data s = if is_ready s.status then s.raw_distance else negsuc 0

-- The events of a driver.
unfoldable pub on_new_events : RangeSensor → List (ℤ × ℤ × ℤ) → RangeSensor × List (ℤ × ℤ)
on_new_events s [] = (s, [])
on_new_events s ((event_type, code, value) ∷ es) =
    let (t, out) = on_new_event s event_type code value in
    let (u, more) = on_new_events t es in (u, out ++ more)
