-- ===== src/Control/Keys.antt =====
-- trikControl/src/keysWorker.cpp: the keys of the brick.
pub mod Presses
mod Tests
use trik_runtime.Prelude.{ℕ, ◌≡◌, Bool, true, false, List, [], ◌∷◌, ◌++◌, if◌then◌else◌, ◌&&◌, not}
use trik_runtime.Prelude.Sets.{has, with_element, without}
use trik_runtime.Prelude.Int.{int_eq, ℤ, pos, eq_ℤ, is_zero}
use trik_runtime.Control.DeviceState.{Status, Outcome, done, fail}

pub record Keys : Type 0 where
  pub button_code : ℤ
  pub button_value : ℤ
  pub was_pressed : List ℤ  -- a set

pub data Signal : Type 0 where
  button_pressed : ℤ → ℤ → Signal
  stop_waiting : Signal

abbrev pub ev_syn : ℤ
ev_syn = pos 0

abbrev pub ev_key : ℤ
ev_key = pos 1

-- The state of the constructor.
unfoldable pub new : Keys
new = record { button_code = pos 0; button_value = pos 0; was_pressed = [] }

-- init, where `opened` is the answer of the event file: a failure is kept in the device state.
unfoldable pub init : Status → Bool → Outcome
init status opened = if opened then done status else fail status

unfoldable pub reset : Keys → Keys × List Signal
reset s =
    (record { button_code = pos 0; button_value = pos 0; was_pressed = [] }, stop_waiting ∷ [])

-- wasPressed.
unfoldable pub ask : Keys → ℤ → Keys × Bool
ask s code =
    if has code s.was_pressed
    then (record s { was_pressed = without code s.was_pressed }, true)
    else (s, false)

unfoldable pub read_keys_event : Keys → ℤ → ℤ → ℤ → Keys × List Signal
read_keys_event s event_type code value =
    if eq_ℤ event_type ev_key
    then (record s { button_code = code; button_value = value }, [])
    else if eq_ℤ event_type ev_syn
    then (
      record {
        button_code = pos 0;
        button_value = pos 0;
        was_pressed =
            if not (is_zero s.button_code) && not (is_zero s.button_value)
            then with_element s.button_code s.was_pressed
            else s.was_pressed;
      },
      button_pressed s.button_code s.button_value ∷ [],
    )
    else (s, [])

pub data Call : Type 0 where
  asks : ℤ → Call
  resets : Call
  hears : ℤ → ℤ → ℤ → Call

unfoldable pub step : Keys → Call → Keys
step s (asks code) = (ask s code).0
step s resets = (reset s).0
step s (hears event_type code value) = (read_keys_event s event_type code value).0

-- A history, the last call first.
unfoldable pub after : List Call → Keys
after [] = new
after (c ∷ h) = step (after h) c
