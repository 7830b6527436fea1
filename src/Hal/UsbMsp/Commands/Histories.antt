-- ===== src/Hal/UsbMsp/Commands/Histories.antt =====
-- Sequences of commands to the microcontroller.
use trik_runtime.Prelude.{
  ℕ, zero, suc, ◌+◌, ◌*◌, ◌^◌, ◌<◌, ◌≡◌, refl, true, false, List, [], ◌∷◌, arith, Bool-cases, inl,
  inr, length, ◌==◌, All,
}
use trik_runtime.Prelude.Int.{ℤ}
use trik_runtime.Text.{Bytes}
use trik_runtime.Prelude.Int.{is_negative}
use trik_runtime.Text.{byte}
use trik_runtime.Hal.UsbMsp.Defines.Registers.{no_error, def_mot_per, device_error}
use trik_runtime.Hal.UsbMsp.Device.{
  Tty, Device, Outcome, ok, fault, ◌>>=◌, write_register, write_registers,
}
use trik_runtime.Hal.UsbMsp.Device.Exchange.{write_registers-globals, write_register-globals}
use trik_runtime.Hal.UsbMsp.Motors.{
  dev_address_of, is_motor, is_servo, is_pwm_motor, is_encoder, power_motor, freq_motor,
  reset_encoder, run_motor, run_servo, period,
}
use trik_runtime.Hal.UsbMsp.Motors.Power.{run_motor_lem}
use trik_runtime.Hal.UsbMsp.Commands.{
  send_usbmsp, connect, connect_usbmsp, init_motors, init_encoders, init_sensors,
}

-- A period that a float conversion can give, and that leaves room for a duty.
abbrev pub IsTuned : {World : Type 0} → Device World → Type 0
IsTuned d = (0 < d.mper) × (d.mper < 2 ^ 16)

-- Where a command sets the frequency of a motor, three times its value fits into uint16_t.
abbrev pub IsModerate : Bytes → Type 0
IsModerate c = 3 * (byte c 3 * 2 ^ 8 + byte c 2) < 2 ^ 16

abbrev pub Tuned : {World : Type 0} → Outcome (ℕ × Device World) → Type 0
Tuned (ok (code, d)) = IsTuned d
Tuned (fault e) = ⊥

period_moderate : (v : ℕ) → 3 * v < 2 ^ 16 → (m : ℕ) × (period v ≡ ok m) × (0 < m) × (m < 2 ^ 16)
period_moderate zero h = (1, refl, omega arith, omega arith)
period_moderate (suc v) h = (3 * suc v, ground arith, omega arith, h)

module _ (os : Tty) where
  unfoldable pub sends : List Bytes → Device os.World → Outcome (ℕ × Device os.World)
  sends [] d = ok (no_error, d)
  sends (c ∷ cs) d = send_usbmsp os c d >>= λ r. sends cs r.1

  write_registers-IsTuned :
      (ws : List (ℕ × ℕ × ℕ)) (d : Device os.World) → IsTuned d → IsTuned (write_registers os ws d)
  write_registers-IsTuned ws d h = rw (write_registers-globals os ws d) h

  write_register-IsTuned :
      (dev reg v : ℕ) (d : Device os.World) → IsTuned d → IsTuned (write_register os dev reg v d)
  write_register-IsTuned dev reg v d h = rw (write_register-globals os dev reg v d) h

  run_motor-Tuned : (a : ℕ) (v : ℤ) (d : Device os.World) → IsTuned d → Tuned (run_motor os a v d)
  run_motor-Tuned a v d h = rw ((run_motor_lem os a v d h.0).0) (write_registers-IsTuned _ d h)

  run_servo-IsTuned :
      (a : ℕ) (v : ℤ) (d : Device os.World) → IsTuned d → IsTuned (run_servo os a v d).1
  unfolding run_servo
  run_servo-IsTuned a v d h = write_registers-IsTuned _ d h

  power_motor-Tuned : (c : Bytes) (d : Device os.World) → IsTuned d → Tuned (power_motor os c d)
  unfolding power_motor
  power_motor-Tuned c d h = elim (Bool-cases (is_motor (dev_address_of c))) [
    | inl m ↦ rw m (run_motor-Tuned _ _ d h)
    | inr m ↦ rw m (elim (Bool-cases (is_servo (dev_address_of c))) [
      | inl s ↦ rw s (run_servo-IsTuned _ _ d h)
      | inr s ↦ rw s h
    ])
  ]

  reset_encoder-IsTuned :
      (c : Bytes) (d : Device os.World) → IsTuned d → IsTuned (reset_encoder os c d).1
  unfolding reset_encoder
  reset_encoder-IsTuned c d h = elim (Bool-cases (is_encoder (dev_address_of c))) [
    | inl m ↦ rw m (write_registers-IsTuned _ d h)
    | inr m ↦ rw m h
  ]

  freq_motor-Tuned :
      (c : Bytes) (d : Device os.World) → IsTuned d → IsModerate c → Tuned (freq_motor os c d)
  unfolding freq_motor
  freq_motor-Tuned c d h k =
      let (m, e, low, high) = period_moderate (byte c 3 * 2 ^ 8 + byte c 2) k in
      elim (Bool-cases (is_pwm_motor (dev_address_of c))) [
        | inl p ↦ rw (p, e) (write_register-IsTuned _ _ m (record d { mper = m }) (low, high))
        | inr p ↦ rw p h
      ]

  >>=-Tuned :
      (r : Outcome (ℕ × Device os.World)) (f : ℕ × Device os.World → Outcome (ℕ × Device os.World))
      → Tuned r
      → ((code : ℕ) (d : Device os.World) → IsTuned d → Tuned (f (code, d)))
      → Tuned (r >>= f)
  >>=-Tuned (ok (code, d)) f h g = g code d h
  >>=-Tuned (fault e) f h g = absurd h

  send_usbmsp-Tuned :
      (c : Bytes) (d : Device os.World) → IsTuned d → IsModerate c → Tuned (send_usbmsp os c d)
  unfolding send_usbmsp
  send_usbmsp-Tuned c d h k = elim (Bool-cases (length c == 3)) [
    | inl three ↦ rw three (
        >>=-Tuned (power_motor os c d) _ (power_motor-Tuned c d h)
          (λ code d' t. reset_encoder-IsTuned c d' t))
    | inr other ↦ rw other (elim (Bool-cases (length c == 4)) [
      | inl four ↦
          rw four (>>=-Tuned (freq_motor os c d) _ (freq_motor-Tuned c d h k) (λ code d' t. t))
      | inr none_of ↦ rw none_of h
    ])
  ]

  sends-Tuned :
      (cs : List Bytes) (d : Device os.World) → IsTuned d → All IsModerate cs → Tuned (sends cs d)
  unfolding sends
  sends-Tuned [] d h k = h
  sends-Tuned (c ∷ cs) d h k =
      >>=-Tuned (send_usbmsp os c d) _ (send_usbmsp-Tuned c d h k.0)
        (λ code d' t. sends-Tuned cs d' t k.1)

  init_motors-IsTuned : (d : Device os.World) → IsTuned (init_motors os d)
  unfolding init_motors
  init_motors-IsTuned d =
      write_registers-IsTuned _ (record d { mper = 3 * def_mot_per }) (omega arith, omega arith)

  connect_usbmsp-IsTuned :
      (d : Device os.World)
      → ((connect_usbmsp os d).0 == device_error) ≡ false
      → IsTuned (connect_usbmsp os d).1
  unfolding connect_usbmsp init_sensors init_encoders
  connect_usbmsp-IsTuned d h = elim (Bool-cases (is_negative (os.open_device d.world).0)) [
    | inl e ↦ absurd (let f = rw e at h in cc f)
    | inr e ↦
        rw e (write_registers-IsTuned _ _ (write_registers-IsTuned _ _ (init_motors-IsTuned _)))
  ]

  -- Once the microcontroller is connected, nothing that is sent to motors, servos and encoders is
  -- undefined, and the motors keep a period that leaves room for the duty. The frequencies that are
  -- set are moderate.
  pub sends-connect :
      (cs : List Bytes) (d : Device os.World)
      → (connect os true d).0 ≡ true
      → All IsModerate cs
      → Tuned (sends cs (connect os true d).1)
  unfolding connect
  sends-connect cs d h k = elim (Bool-cases ((connect_usbmsp os d).0 == device_error)) [
    | inl e ↦ absurd (let f = rw e at h in cc f)
    | inr e ↦ rw e (sends-Tuned cs _ (connect_usbmsp-IsTuned d e) k)
  ]
