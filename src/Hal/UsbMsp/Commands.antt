-- ===== src/Hal/UsbMsp/Commands.antt =====
-- trikHal/src/trik/usbMsp/usbMSP430Interface.cpp: connecting to the microcontroller, and the commands
-- that are sent to it; trikHal/src/trik/trikMspUsb.cpp.
pub mod Histories
use trik_runtime.Prelude.{
  ℕ, ◌+◌, ◌*◌, ◌≡◌, Bool, true, false, Option, none, some, List, [], ◌∷◌, ◌++◌, if◌then◌else◌, ◌==◌,
  length, ltb, map, ◌-◌, ◌^◌, not,
}
use trik_runtime.Prelude.Int.{ℤ, pos, negsuc}
use trik_runtime.Text.{Bytes}
use trik_runtime.Prelude.Int.{is_negative}
use trik_runtime.Hal.UsbMsp.Defines.Devices.{
  motor1, motor2, motor3, motor4, sensor1, sensor2, sensor3, sensor4, sensor5, sensor6, sensor7,
  sensor8, sensor9, sensor10, sensor11, sensor12, sensor13, sensor14, sensor17, encoder1, encoder2,
  encoder3, encoder4, i2c1, i2c2, i2c3, i2c4, i2c5, i2c6, i2c7, spwm1, spwm2, spwm3, spwm4, spwm5,
  spwm6, spwm7, spwm8, spwm9, spwm10, spwm11, spwm12, spwm13, spwm14,
}
use trik_runtime.Hal.UsbMsp.Defines.Registers.{
  mmper, def_mot_per, eectl, ssctl, ssidx, analog_inp, dhtxx_temp, sens_enable, sens_read, iictl,
  iiidx, iipar, i2c_enable, i2c_sens, nxttemp, mcp3424_ch1, mcp3424_gain1, mcp3424_gain2,
  mcp3424_gain4, mcp3424_gain8, sppper, def_spwm_per, no_error, device_error, alt_analog,
}
use trik_runtime.Hal.UsbMsp.Device.{
  Tty, Device, Outcome, ok, fault, ◌>>=◌, write_register, write_registers,
}
use trik_runtime.Hal.UsbMsp.Motors.{
  encoder_control, power_motor, freq_motor, reset_encoder, read_encoder,
}
use trik_runtime.Hal.UsbMsp.Sensors.{read_sensor}

abbrev pub servo_writes : ℕ → List (ℕ × ℕ × ℕ)
servo_writes sper =
    (spwm1, sppper, sper)
    ∷ (spwm2, sppper, sper)
    ∷ (spwm3, sppper, sper)
    ∷ (spwm4, sppper, sper)
    ∷ (spwm5, sppper, sper)
    ∷ (spwm6, sppper, sper)
    ∷ (spwm7, sppper, sper)
    ∷ (spwm8, sppper, sper)
    ∷ (spwm9, sppper, sper)
    ∷ (spwm10, sppper, sper)
    ∷ (spwm11, sppper, sper)
    ∷ (spwm12, sppper, sper)
    ∷ (spwm13, sppper, sper)
    ∷ (spwm14, sppper, sper)
    ∷ []

abbrev pub motor_writes : ℕ → List (ℕ × ℕ × ℕ)
motor_writes mper =
    (motor1, mmper, mper)
    ∷ (motor2, mmper, mper)
    ∷ (motor3, mmper, mper)
    ∷ (motor4, mmper, mper)
    ∷ []

abbrev pub encoder_writes : List (ℕ × ℕ × ℕ)
encoder_writes =
    (encoder1, eectl, encoder_control)
    ∷ (encoder2, eectl, encoder_control)
    ∷ (encoder3, eectl, encoder_control)
    ∷ (encoder4, eectl, encoder_control)
    ∷ []

abbrev pub sensor_writes : List (ℕ × ℕ × ℕ)
sensor_writes =
    (sensor1, ssctl, sens_enable + sens_read)
    ∷ (sensor1, ssidx, analog_inp)
    ∷ (sensor2, ssctl, sens_enable + sens_read)
    ∷ (sensor2, ssidx, analog_inp)
    ∷ (sensor3, ssctl, sens_enable + sens_read)
    ∷ (sensor3, ssidx, analog_inp)
    ∷ (sensor4, ssctl, sens_enable + sens_read)
    ∷ (sensor4, ssidx, analog_inp)
    ∷ (sensor5, ssctl, sens_enable + sens_read)
    ∷ (sensor5, ssidx, analog_inp)
    ∷ (sensor6, ssctl, sens_enable + sens_read)
    ∷ (sensor6, ssidx, analog_inp)
    ∷ (sensor17, ssctl, sens_enable + sens_read)
    ∷ (sensor17, ssidx, analog_inp)
    ∷ []

abbrev pub dhtxx_writes : List (ℕ × ℕ × ℕ)
dhtxx_writes =
    (sensor7, ssctl, sens_enable + sens_read)
    ∷ (sensor7, ssidx, dhtxx_temp)
    ∷ (sensor8, ssctl, sens_enable + sens_read)
    ∷ (sensor8, ssidx, dhtxx_temp)
    ∷ (sensor9, ssctl, sens_enable + sens_read)
    ∷ (sensor9, ssidx, dhtxx_temp)
    ∷ (sensor10, ssctl, sens_enable + sens_read)
    ∷ (sensor10, ssidx, dhtxx_temp)
    ∷ (sensor11, ssctl, sens_enable + sens_read)
    ∷ (sensor11, ssidx, dhtxx_temp)
    ∷ (sensor12, ssctl, sens_enable + sens_read)
    ∷ (sensor12, ssidx, dhtxx_temp)
    ∷ (sensor13, ssctl, sens_enable + sens_read)
    ∷ (sensor13, ssidx, dhtxx_temp)
    ∷ (sensor14, ssctl, sens_enable + sens_read)
    ∷ (sensor14, ssidx, dhtxx_temp)
    ∷ []

abbrev pub i2c_writes : List (ℕ × ℕ × ℕ)
i2c_writes =
    (i2c1, iiidx, nxttemp)
    ∷ (i2c1, iictl, i2c_enable + i2c_sens)
    ∷ (i2c2, iiidx, nxttemp)
    ∷ (i2c2, iictl, i2c_enable + i2c_sens)
    ∷ (i2c3, iiidx, nxttemp)
    ∷ (i2c3, iictl, i2c_enable + i2c_sens)
    ∷ (i2c4, iiidx, mcp3424_ch1)
    ∷ (i2c4, iipar, mcp3424_gain1)
    ∷ (i2c4, iictl, i2c_enable + i2c_sens)
    ∷ (i2c5, iiidx, mcp3424_ch1)
    ∷ (i2c5, iipar, mcp3424_gain2)
    ∷ (i2c5, iictl, i2c_enable + i2c_sens)
    ∷ (i2c6, iiidx, mcp3424_ch1)
    ∷ (i2c6, iipar, mcp3424_gain4)
    ∷ (i2c6, iictl, i2c_enable + i2c_sens)
    ∷ (i2c7, iiidx, mcp3424_ch1)
    ∷ (i2c7, iipar, mcp3424_gain8)
    ∷ (i2c7, iictl, i2c_enable + i2c_sens)
    ∷ []

module _ (os : Tty) where
  unfoldable pub init_servomotors : Device os.World → Device os.World
  init_servomotors d =
      let sper = if ltb 0 def_spwm_per then def_spwm_per else 1 in
      write_registers os (servo_writes sper) (record d { sper = sper })

  -- (uint16_t)(24 / 8 * (float)DEF_MOT_PER): the product fits.
  unfoldable pub init_motors : Device os.World → Device os.World
  init_motors d =
      let mper = if ltb 0 def_mot_per then 3 * def_mot_per else 1 in
      write_registers os (motor_writes mper) (record d { mper = mper })

  unfoldable pub init_encoders : Device os.World → Device os.World
  init_encoders d = write_registers os encoder_writes d

  unfoldable pub init_sensors : Device os.World → Device os.World
  init_sensors d = write_registers os sensor_writes d

  unfoldable pub init_dhtxx_sensors : Device os.World → Device os.World
  init_dhtxx_sensors d = write_registers os dhtxx_writes d

  unfoldable pub init_i2c_sensors : Device os.World → Device os.World
  init_i2c_sensors d = write_registers os i2c_writes d

  -- The attributes of the serial line are the call `set_attributes`, whose result is not used.
  unfoldable pub connect_usbmsp : Device os.World → ℕ × Device os.World
  connect_usbmsp d =
      let opened = os.open_device d.world in
      let d1 = record d { usb_out_descr = opened.0; world = opened.1 } in
      let d2 = record d1 { world = os.set_attributes opened.1 } in
      let d3 = init_dhtxx_sensors (init_i2c_sensors (init_servomotors d2)) in
      let d4 = init_sensors (init_encoders (init_motors d3)) in
      if is_negative opened.0
      then (device_error, d1)
      else (no_error, record d4 { alt_func_flag = alt_analog })

  unfoldable pub disconnect_usbmsp : Device os.World → ℕ × Device os.World
  disconnect_usbmsp d =
      if is_negative d.usb_out_descr
      then (device_error, d)
      else (no_error, record d { world = os.close d.world })

  -- A command of three bytes goes to the motors and to the encoders, one of four sets a frequency.
  unfoldable pub send_usbmsp : Bytes → Device os.World → Outcome (ℕ × Device os.World)
  send_usbmsp i2c_data d =
      if length i2c_data == 3
      then (power_motor os i2c_data d >>= λ r. ok (no_error, (reset_encoder os i2c_data r.1).1))
      else if length i2c_data == 4
      then (freq_motor os i2c_data d >>= λ r. ok (no_error, r.1))
      else ok (no_error, d)

  unfoldable pub read_usbmsp : Bytes → Device os.World → Outcome (ℕ × Device os.World)
  read_usbmsp i2c_data d =
      if length i2c_data == 4
      then read_sensor os i2c_data d
      else if length i2c_data == 5
      then read_encoder os i2c_data d
      else ok (no_error, d)

  -- TrikMspUsb::connect; without the macro I_UNDERSTAND_ALL_RISKS it does not connect at all.
  unfoldable pub connect : Bool → Device os.World → Bool × Device os.World
  connect understand_all_risks d =
      let c = connect_usbmsp d in
      if not understand_all_risks
      then (false, d)
      else if c.0 == device_error
      then (false, c.1)
      else (true, c.1)
