-- ===== src/Hal/UsbMsp/Motors/Power.antt =====
-- What a power motor is told for each value.
use trik_runtime.Prelude.{
  ℕ, zero, suc, ◌-◌, ◌*◌, ◌/◌, ◌≤◌, ◌<◌, ◌≡◌, refl, [], ◌∷◌, arith, if◌then◌else◌, leb, ltb,
  Bool-cases, inl, inr,
}
use trik_runtime.Prelude.Int.{ℤ, pos, negsuc}
use trik_runtime.Hal.UsbMsp.Defines.Registers.{no_error, mmdut, mmctl}
use trik_runtime.Hal.UsbMsp.Device.{Tty, Device, ok, write_registers}
use trik_runtime.Hal.UsbMsp.Motors.{usb_address, motor_values, run_motor}

-- Forward with power, backward with power, on without power, or the brake.
abbrev pub control_word : ℤ → ℕ
control_word (pos zero) = 0x8000
control_word (pos (suc n)) = if ltb n 100 then 0x8003 else 0x8008
control_word (negsuc n) = if ltb n 100 then 0x8013 else 0x8008

-- The part of the period, in percent, for which the motor has power.
abbrev pub percent : ℤ → ℕ
percent (pos n) = if leb n 100 then n else 0
percent (negsuc n) = if ltb n 100 then suc n else 0

motor_values_lem :
    (v : ℤ) (p : ℕ) → motor_values v (suc p) ≡ ok (percent v * p / 100, control_word v)
unfolding motor_values
motor_values_lem (pos zero) p = ground arith
motor_values_lem (pos (suc n)) p = elim (Bool-cases (ltb n 100)) [
  | inl e ↦ rw e (ground arith)
  | inr e ↦ rw e (ground arith)
]
motor_values_lem (negsuc n) p = elim (Bool-cases (ltb n 100)) [
  | inl e ↦ rw e (ground arith)
  | inr e ↦ rw e (ground arith)
]

percent-le : (v : ℤ) → percent v ≤ 100
percent-le (pos n) = ground arith
percent-le (negsuc n) = ground arith

module _ (os : Tty) where
  -- A value from -100 to 100 drives a power motor backward or forward for that percentage of its
  -- period, which is less than the period, 0 stops it, and any other value brakes.
  pub run_motor_lem :
      (a : ℕ) (v : ℤ) (d : Device os.World)
      → 0 < d.mper
      → (run_motor os a v d
          ≡ ok (
            no_error,
            write_registers os
                ((usb_address a, mmdut, percent v * (d.mper - 1) / 100)
                  ∷ (usb_address a, mmctl, control_word v)
                  ∷ [])
                d,
          ))
        × (percent v * (d.mper - 1) / 100 < d.mper)
  unfolding run_motor
  run_motor_lem a v d h =
      let e : suc (d.mper - 1) ≡ d.mper = omega arith in
      let values = rw e at (motor_values_lem v (d.mper - 1)) in
      (rw values refl, grind (arith, percent-le v))
