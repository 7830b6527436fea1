-- ===== src/Control/DspSensor.antt =====
-- trikControl/src/dspSensorBase.h and dspSensorBase.cpp, with lineSensor.cpp and objectSensor.cpp:
-- sensors that find what they have been shown. The signal processor is outside: its results are
-- arguments. A factor of tolerance is the function from a difference d to (int)(d / 2.0 * factor).
pub mod Tolerance
mod Tests
use trik_runtime.Prelude.{
  ℕ, zero, suc, ltb, ◌+◌, ◌-◌, ◌/◌, ◌%◌, ◌^◌, min, Bool, true, false, List, [], ◌∷◌, if◌then◌else◌,
  not,
}
use trik_runtime.Prelude.Int.{ℤ, pos, negsuc, leb_ℤ}
use trik_runtime.Control.DeviceState.{Status, ready, is_ready, is_failed, settled, become_ready}

pub record HsvRange : Type 0 where
  pub lower : ℕ  -- from
  pub upper : ℕ  -- to

pub record DetectParams : Type 0 where
  pub hue : HsvRange
  pub saturation : HsvRange
  pub value : HsvRange

pub record InArgs : Type 0 where
  pub params : DetectParams
  pub auto_detect : Bool

pub record OutArgs : Type 0 where
  pub x : ℤ
  pub y : ℤ
  pub size : ℕ
  pub detected : DetectParams
  pub is_detect_result : Bool  -- autoDetect

pub record DspSensor : Type 0 where
  pub status : Status
  pub in_args : InArgs
  pub video_out : Bool
  pub reading : List ℤ
  pub detect_parameters : List ℤ

pub data Signal : Type 0 where
  activate_requested : InArgs → Bool → Bool → Signal
  stop_requested : ℤ → Signal
  emits_stopped : Signal

abbrev pub Step : Type 0
Step = DspSensor × List Signal

abbrev pub no_range : HsvRange
no_range = record { lower = 0; upper = 0 }

-- The constructor, with the state that reading the configuration leaves.
unfoldable pub new : Status → DspSensor
unfolding become_ready
new status = record {
  status = if is_failed status then status else settled status (become_ready status);
  in_args = record {
    params = record { hue = no_range; saturation = no_range; value = no_range };
    auto_detect = false;
  };
  video_out = false;
  reading = pos 0 ∷ pos 0 ∷ pos 0 ∷ [];
  detect_parameters = pos 0 ∷ pos 0 ∷ pos 0 ∷ pos 0 ∷ pos 0 ∷ pos 0 ∷ [];
}

unfoldable pub do_init : Bool → DspSensor → Bool × DspSensor
do_init show_on_display s =
    if is_failed s.status then (false, s) else (true, record s { video_out = show_on_display })

unfoldable pub do_stop : DspSensor → DspSensor
do_stop s = record s { video_out = false }

unfoldable pub init : Bool → DspSensor → Step
unfolding do_init
init show_on_display s =
    let d = do_init show_on_display s in
    (d.1, if d.0 then activate_requested d.1.in_args show_on_display true ∷ [] else [])

unfoldable pub detect : DspSensor → Step
detect s =
    let args : InArgs = record { params = s.in_args.params; auto_detect = true } in
    if is_ready s.status
    then (record s { in_args = args }, activate_requested args s.video_out false ∷ [])
    else (s, [])

unfoldable pub stop : ℤ → DspSensor → Step
unfolding do_stop
stop flags s = (do_stop s, stop_requested flags ∷ emits_stopped ∷ [])

-- A difference of two numbers.
abbrev pub diff : ℕ → ℕ → ℤ
diff a b = if ltb a b then negsuc (b - a - 1) else pos (a - b)

abbrev pub minus : ℕ → ℤ
minus zero = pos 0
minus (suc n) = negsuc n

-- Half of it, cut towards 0.
abbrev pub half : ℤ → ℤ
half (pos n) = pos (n / 2)
half (negsuc n) = minus (suc n / 2)

-- toDetectParameters.
unfoldable pub to_detect_parameters : DetectParams → List ℤ
to_detect_parameters p =
    pos ((p.hue.lower + p.hue.upper) / 2)
    ∷ pos ((p.saturation.lower + p.saturation.upper) / 2)
    ∷ pos ((p.value.lower + p.value.upper) / 2)
    ∷ half (diff p.hue.upper p.hue.lower)
    ∷ half (diff p.saturation.upper p.saturation.lower)
    ∷ half (diff p.value.upper p.value.lower)
    ∷ []

-- center - tolerance and center + tolerance, as far as the limits and 8 bits go. An int that overflows
-- wraps around to a negative number.
abbrev pub lower_bound : ℕ → ℤ → ℕ
lower_bound center (pos t) = (center - t) % 2 ^ 8
lower_bound center (negsuc t) =
    if ltb (center + suc t) (2 ^ 31) then (center + suc t) % 2 ^ 8 else 0

-- A sum below 0 has its 8 bits of two's complement.
abbrev pub upper_bound : ℕ → ℤ → ℕ
upper_bound center (pos t) =
    if ltb (center + t) (2 ^ 31) then min 255 (center + t) else (center + t) % 2 ^ 8
upper_bound center (negsuc t) =
    if ltb center (suc t)
    then (2 ^ 8 - (suc t - center) % 2 ^ 8) % 2 ^ 8
    else min 255 (center - suc t)

unfoldable pub widen : (ℤ → ℤ) → HsvRange → HsvRange
widen scaled range =
    let center = (range.lower + range.upper) / 2 in
    let tolerance = scaled (diff range.upper range.lower) in
    record { lower = lower_bound center tolerance; upper = upper_bound center tolerance }

unfoldable pub apply_tolerance_factor : (ℤ → ℤ) → DetectParams → DetectParams
unfolding widen
apply_tolerance_factor scaled p = record {
  hue = widen scaled p.hue;
  saturation = widen scaled p.saturation;
  value = widen scaled p.value;
}

unfoldable pub on_result : (ℤ → ℤ) → OutArgs → DspSensor → Step
unfolding apply_tolerance_factor to_detect_parameters
on_result scaled result s =
    let seen = record s { reading = result.x ∷ result.y ∷ pos result.size ∷ [] } in
    let args : InArgs = record {
      params = apply_tolerance_factor scaled result.detected;
      auto_detect = false;
    } in
    if result.is_detect_result
    then (
      record seen { in_args = args; detect_parameters = to_detect_parameters result.detected },
      activate_requested args s.video_out false ∷ [],
    )
    else (seen, [])
