-- ===== src/Hal/UsbMsp/Motors.antt =====
-- trikHal/src/trik/usbMsp/usbMSP430Interface.cpp: power motors, servo motors and encoders. A command
-- is the list of its bytes; char is unsigned, as on the controller.
pub mod Power
pub mod Readings
use trik_runtime.Prelude.{
  or_zero, ℕ, zero, suc, ◌+◌, ◌-◌, ◌*◌, ◌/◌, ◌%◌, ◌^◌, ◌≡◌, Bool, true, false, Option, none, some,
  List, [], ◌∷◌, if◌then◌else◌, ◌==◌, ◌&&◌, ◌||◌, ltb, leb, get_elem?,
}
use trik_runtime.Prelude.Int.{is_negative, ℤ, pos, negsuc, ltb_ℤ, is_zero, eq_ℤ}
use trik_runtime.Text.{Bytes, byte}
use trik_runtime.Hal.UsbMsp.Defines.Requests.{
  i2c_pwm_mot1, i2c_pwm_mot2, i2c_pwm_mot3, i2c_pwm_mot4, i2c_mot1, i2c_mot2, i2c_mot3, i2c_mot4,
  i2c_enc1, i2c_enc2, i2c_enc3, i2c_enc4, i2c_serv1, i2c_serv2, i2c_serv3, i2c_serv4, i2c_serv5,
  i2c_serv6, i2c_serv7, i2c_serv8, i2c_serv9, i2c_serv10, i2c_serv11, i2c_serv12, i2c_serv13,
  i2c_serv14,
}
use trik_runtime.Hal.UsbMsp.Defines.Devices.{
  motor1, motor2, motor3, motor4, sensor1, sensor2, sensor3, sensor4, sensor5, sensor6, sensor17,
  encoder1, encoder2, encoder3, encoder4, i2c1, i2c2, i2c3, i2c4, i2c5, i2c6, i2c7, spwm1, spwm2,
  spwm3, spwm4, spwm5, spwm6, spwm7, spwm8, spwm9, spwm10, spwm11, spwm12, spwm13, spwm14,
}
use trik_runtime.Hal.UsbMsp.Defines.Registers.{
  mmctl, mmdut, mmper, mot_enable, mot_back, mot_brake, mot_power, eectl, eeval, enc_enable,
  enc_2wires, enc_pupen, enc_fall, sppctl, sppdut, sppper, spwm_enable, min_serv_duty,
  max_serv_duty, no_error, dev_addr_error, alt_servo, alt_enc,
}
use trik_runtime.Hal.UsbMsp.Device.{
  Tty, Device, Outcome, ok, fault, conversion, ◌>>=◌, Poll, fresh, regval_of, write_register,
  write_registers, poll, poll_fuel,
}

-- addr_table_i2c_usb.
abbrev pub addr_table : List ℕ
addr_table =
    0 ∷ 0 ∷ 0 ∷ 0 ∷ 0 ∷ 0 ∷ 0 ∷ 0 ∷ 0 ∷ 0 ∷ 0 ∷ 0 ∷ 0 ∷ 0 ∷ 0 ∷ 0 ∷ motor1 ∷ motor2 ∷ motor3
    ∷ motor4 ∷ motor1 ∷ motor2 ∷ motor4 ∷ motor3 ∷ 0 ∷ 0 ∷ 0 ∷ 0 ∷ 0 ∷ 0 ∷ 0 ∷ 0 ∷ sensor6 ∷ sensor5
    ∷ sensor4 ∷ sensor3 ∷ sensor2 ∷ sensor1 ∷ sensor17 ∷ 0 ∷ 0 ∷ 0 ∷ 0 ∷ 0 ∷ 0 ∷ 0 ∷ 0 ∷ 0
    ∷ encoder1 ∷ encoder2 ∷ encoder3 ∷ encoder4 ∷ 0 ∷ 0 ∷ 0 ∷ 0 ∷ 0 ∷ 0 ∷ 0 ∷ 0 ∷ 0 ∷ 0 ∷ 0 ∷ spwm1
    ∷ spwm2 ∷ spwm3 ∷ spwm4 ∷ spwm5 ∷ spwm6 ∷ spwm7 ∷ spwm8 ∷ spwm9 ∷ spwm10 ∷ spwm11 ∷ spwm12
    ∷ spwm13 ∷ spwm14 ∷ i2c1 ∷ i2c2 ∷ i2c3 ∷ i2c4 ∷ i2c5 ∷ i2c6 ∷ i2c7 ∷ []

-- The table has an entry for each address that the callers admit.
unfoldable pub usb_address : ℕ → ℕ
usb_address dev_address = or_zero (get_elem? addr_table dev_address)

abbrev pub dev_address_of : Bytes → ℕ
dev_address_of i2c_data = (byte i2c_data 0 + byte i2c_data 1 * 2 ^ 8) % 2 ^ 16

-- The byte as int8_t.
abbrev pub int8 : ℕ → ℤ
int8 b = if ltb b 128 then pos b else negsuc (255 - b)

abbrev pub abs : ℤ → ℕ
abs (pos n) = n
abs (negsuc n) = suc n

-- mtmp < -100 and mtmp > 100.
abbrev pub is_below : ℤ → Bool
is_below v = ltb_ℤ v (negsuc 99)

abbrev pub is_above : ℤ → Bool
is_above v = ltb_ℤ (pos 100) v

-- if (mtmp < -100) mtmp = -100; if (mtmp > 100) mtmp = 100.
abbrev pub clamp : ℤ → ℤ
clamp v = let u = if is_below v then negsuc 99 else v in if is_above u then pos 100 else u

abbrev pub is_motor : ℕ → Bool
is_motor a = a == i2c_mot1 || (a == i2c_mot2 || (a == i2c_mot3 || a == i2c_mot4))

abbrev pub is_pwm_motor : ℕ → Bool
is_pwm_motor a =
    a == i2c_pwm_mot1 || (a == i2c_pwm_mot2 || (a == i2c_pwm_mot3 || a == i2c_pwm_mot4))

abbrev pub is_servo : ℕ → Bool
is_servo a =
    a == i2c_serv1
    || (a == i2c_serv2
        || (a == i2c_serv3
            || (a == i2c_serv4
                || (a == i2c_serv5
                    || (a == i2c_serv6
                        || (a == i2c_serv7
                            || (a == i2c_serv8
                                || (a == i2c_serv9
                                    || (a == i2c_serv10
                                        || (a == i2c_serv11
                                            || (a == i2c_serv12
                                                || (a == i2c_serv13 || a == i2c_serv14))))))))))))

abbrev pub is_encoder : ℕ → Bool
is_encoder a = a == i2c_enc1 || (a == i2c_enc2 || (a == i2c_enc3 || a == i2c_enc4))

-- uint16_t(float(abs(mtmp)) * (mper - 1) / 100). The products are below 2 ^ 24, so a float holds them,
-- and the rounding of a quotient below 2 ^ 16 does not reach the next whole number. With mper = 0 the
-- factor is -1, and -1.0 does not fit into uint16_t; larger quotients are cut to 0.
unfoldable pub duty : ℕ → ℕ → Outcome ℕ
duty a zero = if ltb a 100 then ok 0 else fault conversion
duty a (suc p) = ok (a * p / 100)

-- mctl for the value as it was asked for, and as it is after the test of the brake.
abbrev pub motor_control : Bool → ℤ → ℕ
motor_control braked v =
    mot_enable
    + (if braked then mot_brake else 0)
    + (if is_negative v then mot_back else 0)
    + (if is_zero v then 0 else mot_power)

-- mdut and mctl.
unfoldable pub motor_values : ℤ → ℕ → Outcome (ℕ × ℕ)
unfolding duty
motor_values reg_value mper =
    let braked = is_below reg_value || is_above reg_value in
    let asked = if braked then pos 0 else reg_value in
    duty (abs (clamp asked)) mper >>= λ mdut. ok (mdut, motor_control braked asked)

-- uint16_t(float(abs(mtmp)) / 100 * (MAX_SERV_DUTY - MIN_SERV_DUTY) + 7): for the values up to 100 the
-- float result, cut, is this one.
abbrev pub servo_duty : ℕ → ℕ
servo_duty a = a * (max_serv_duty - min_serv_duty) / 100 + 7

-- (uint16_t)(24 / 8 * (float)reg_value), at least 1: a value above 21845 does not fit into uint16_t.
abbrev pub period : ℕ → Outcome ℕ
period reg_value =
    if ltb 0 reg_value
    then (if ltb (3 * reg_value) (2 ^ 16) then ok (3 * reg_value) else fault conversion)
    else ok 1

abbrev pub encoder_control : ℕ
encoder_control = enc_enable + enc_2wires + enc_pupen + enc_fall

module _ (os : Tty) where
  -- The branch of the power motors.
  unfoldable pub run_motor : ℕ → ℤ → Device os.World → Outcome (ℕ × Device os.World)
  run_motor dev_address reg_value d = motor_values reg_value d.mper >>= λ (mdut, mctl). ok (
    no_error,
    write_registers os
        ((usb_address dev_address, mmdut, mdut) ∷ (usb_address dev_address, mmctl, mctl) ∷ []) d,
  )

  -- The branch of the servo motors.
  unfoldable pub run_servo : ℕ → ℤ → Device os.World → ℕ × Device os.World
  run_servo dev_address reg_value d =
      let asked =
        if eq_ℤ reg_value (negsuc 127) || eq_ℤ reg_value (pos 127) then pos 0 else reg_value in
      let v = clamp asked in
      let sctl = if is_zero v then 0 else spwm_enable in
      let sdut = if is_zero v then 0 else servo_duty (abs v) in
      (
        no_error,
        record (write_registers os
            ((usb_address dev_address, sppper, d.sper)
              ∷ (usb_address dev_address, sppdut, sdut)
              ∷ (usb_address dev_address, sppctl, sctl)
              ∷ [])
            d) { alt_func_flag = alt_servo },
      )

  unfoldable pub power_motor : Bytes → Device os.World → Outcome (ℕ × Device os.World)
  power_motor i2c_data d =
      let a = dev_address_of i2c_data in
      let v = int8 (byte i2c_data 2) in
      if is_motor a
      then run_motor a v d
      else if is_servo a
      then ok (run_servo a v d)
      else ok (dev_addr_error, d)

  unfoldable pub freq_motor : Bytes → Device os.World → Outcome (ℕ × Device os.World)
  freq_motor i2c_data d =
      let a = dev_address_of i2c_data in
      let reg_value = byte i2c_data 3 * 2 ^ 8 + byte i2c_data 2 in
      if is_pwm_motor a
      then (period reg_value >>= λ mper.
          ok (no_error, write_register os (usb_address a) mmper mper (record d { mper = mper })))
      else ok (dev_addr_error, d)

  unfoldable pub reset_encoder : Bytes → Device os.World → ℕ × Device os.World
  reset_encoder i2c_data d =
      let a = dev_address_of i2c_data in
      if is_encoder a
      then (
        no_error,
        record (write_registers os
            ((usb_address a, eectl, encoder_control) ∷ (usb_address a, eeval, byte i2c_data 2) ∷ [])
            d) { alt_func_flag = alt_enc },
      )
      else (dev_addr_error, d)

  -- A register is read, and the flag of alternative functions is set.
  unfoldable pub read_register : ℕ → ℕ → ℕ → Poll → Device os.World → Outcome (ℕ × Device os.World)
  read_register dev reg flag l d = poll os poll_fuel dev reg l d >>= λ s.
      ok (regval_of s.0.seen, record s.1 { alt_func_flag = flag })

  unfoldable pub read_encoder : Bytes → Device os.World → Outcome (ℕ × Device os.World)
  read_encoder i2c_data d =
      let a = dev_address_of i2c_data in
      if is_encoder a
      then read_register (usb_address a) eeval alt_enc (fresh (some []))
          (write_register os (usb_address a) eectl encoder_control d)
      else ok (dev_addr_error, d)
