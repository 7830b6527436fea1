-- ===== src/Control/VirtualSensor/SoundSensor.antt =====
-- trikControl/src/soundSensorWorker.cpp, and the calls of soundSensor.cpp, which come through the
-- event queue of the worker's thread.
use trik_runtime.Prelude.{
  Bool, true, false, Option, none, some, and_then, List, [], ◌∷◌, ◌++◌, if◌then◌else◌, list_eq, not,
}
use trik_runtime.Prelude.Int.{ℤ}
use trik_runtime.Text.{Bytes, Decimal, codes, split, without_empty, zero_or}
use trik_runtime.Control.DeviceState.{Status, is_ready, is_failed}
use trik_runtime.Control.VirtualSensor.{
  VirtualSensorWorker, Answers, Step, after, init, send_command, stop_worker,
}

abbrev pub video_out : Bool → Bytes
video_out true = codes "video_out 1"
video_out false = codes "video_out 0"

abbrev pub detect_command : Bytes
detect_command = codes "detect"

unfoldable pub init_sound : Bool → Answers → VirtualSensorWorker → Option Step
unfolding init send_command
init_sound show_on_display a w =
    and_then (init a w) (λ i. some (after i.1 (send_command (video_out show_on_display) i.0)))

unfoldable pub detect : VirtualSensorWorker → Step
unfolding send_command
detect w = send_command detect_command w

pub data Request : Type 0 where
  asks_init : Bool → Answers → Request
  asks_detect : Request
  asks_volume : ℤ → Request
  asks_stop : Answers → Request

-- SoundSensor passes a request on for these states of the device.
unfoldable pub is_admitted : Status → Request → Bool
is_admitted s (asks_init show_on_display a) = not (is_failed s)
is_admitted s _ = is_ready s

module _ (d : Decimal) where
  abbrev pub volume_command : ℤ → Bytes
  volume_command coefficient = codes "volcoeff " ++ d.number coefficient

  unfoldable pub volume : ℤ → VirtualSensorWorker → Step
  unfolding send_command
  volume coefficient w = send_command (volume_command coefficient) w

  -- SoundSensorWorker::onNewData with the reading that is kept; `none` is an index out of range.
  abbrev pub reading : List Bytes → Option (List ℤ)
  reading (angle ∷ left_volume ∷ right_volume ∷ rest) = some (
      zero_or (d.to_int angle)
      ∷ zero_or (d.to_int left_volume)
      ∷ zero_or (d.to_int right_volume)
      ∷ [])
  reading _ = none

  unfoldable pub on_new_data : Bytes → List ℤ → Option (List ℤ)
  on_new_data line kept = elim (without_empty (split b' ' line)) [
    | [] ↦ none
    | name ∷ rest ↦ if list_eq name (codes "sound:") then reading rest else some kept
  ]

  -- What is asked of a sound sensor. The status is tested when the call is made, before the worker's
  -- part runs: a request whose test has passed has come here.
  unfoldable pub serve : Request → VirtualSensorWorker → Option Step
  serve (asks_init show_on_display a) w = init_sound show_on_display a w
  serve asks_detect w = some (detect w)
  serve (asks_volume coefficient) w = some (volume coefficient w)
  serve (asks_stop a) w = stop_worker a w

  -- The worker's part of requests, in their order.
  unfoldable pub serve_all : List Request → VirtualSensorWorker → Option Step
  serve_all [] w = some (w, [])
  serve_all (r ∷ rs) w =
      and_then (serve r w) (λ s. and_then (serve_all rs s.0) (λ t. some (after s.1 t)))
