-- ===== src/Hal/UsbMsp/Sensors.antt =====
-- trikHal/src/trik/usbMsp/usbMSP430Interface.cpp: read_Sensor and the ultrasonic sensors URM04.
use trik_runtime.Prelude.{
  ℕ, zero, suc, ◌+◌, ◌-◌, ◌*◌, ◌%◌, ◌^◌, Bool, Option, none, some, List, [], ◌∷◌, if◌then◌else◌,
  ◌==◌, ◌&&◌, ◌||◌, leb, get_elem?, not,
}
use trik_runtime.Text.{Bytes}
use trik_runtime.Prelude.{or_zero}
use trik_runtime.Hal.UsbMsp.Defines.Requests.{
  i2c_batt, i2c_sens1, i2c_sens2, i2c_sens3, i2c_sens4, i2c_sens5, i2c_sens6, i2c_temp1, i2c_temp2,
  i2c_temp3, i2c_w1, i2c_w2, i2c_w3, i2c_w4, temp_dht11_1, temp_dht11_14, hum_dht11_1, hum_dht11_14,
  temp_dht22_1, temp_dht22_14, hum_dht22_1, hum_dht22_14,
}
use trik_runtime.Hal.UsbMsp.Defines.Devices.{
  sensor1, i2c1, i2c2, i2c3, i2c4, i2c5, i2c6, i2c7, usart1, usart2, usart3, usart4, usart5, usart6,
  usart7,
}
use trik_runtime.Hal.UsbMsp.Defines.Registers.{
  ssctl, ssidx, ssval, analog_inp, dhtxx_temp, dhtxx_hum, sens_enable, sens_read, iictl, iival,
  i2c_enable, i2c_sens, uuctl, uuspd, uudat, usart_en, usart_8bits, usart_rs485, usart_invrts,
  usart_rxen, usart_txen, no_error, dev_addr_error, urm04_error, alt_analog, alt_i2c, alt_usart,
  alt_dhtxx,
}
use trik_runtime.Hal.UsbMsp.Device.{
  Tty, Device, Outcome, ok, ◌>>=◌, Poll, fresh, regval_of, write_register, write_registers, poll,
  poll_fuel,
}
use trik_runtime.Hal.UsbMsp.Motors.{usb_address, dev_address_of, read_register}
use trik_runtime.Hal.UsbMsp.UltrasonicPorts.{i2c_u1_0x11, i2c_u7_0x20, urm04_cases}

abbrev pub find_case : ℕ → List (ℕ × ℕ × ℕ) → Option (ℕ × ℕ)
find_case a [] = none
find_case a ((k, port, sensor) ∷ cs) = if k == a then some (port, sensor) else find_case a cs

abbrev pub is_within : ℕ → ℕ → ℕ → Bool
is_within a low high = leb low a && leb a high

abbrev pub is_analog : ℕ → Bool
is_analog a =
    a == i2c_sens1
    || (a == i2c_sens2
        || (a == i2c_sens3
            || (a == i2c_sens4 || (a == i2c_sens5 || (a == i2c_sens6 || a == i2c_batt)))))

abbrev pub is_i2c_sensor : ℕ → Bool
is_i2c_sensor a =
    a == i2c_temp1
    || (a == i2c_temp2
        || (a == i2c_temp3 || (a == i2c_w1 || (a == i2c_w2 || (a == i2c_w3 || a == i2c_w4)))))

-- The low bytes that a sum of uint8_t values leaves in uint8_t.
abbrev pub uint8 : ℕ → ℕ
uint8 n = n % 2 ^ 8

-- The two packets for the sensor: the start of a measurement, and the question for its result.
abbrev pub urm04_packet : ℕ → ℕ → List ℕ
urm04_packet sensor command =
    0x55 ∷ 0xaa ∷ sensor ∷ 0x00 ∷ command ∷ uint8 (0x55 + 0xaa + sensor + 0x00 + command) ∷ []

abbrev pub sum_of : List ℕ → ℕ
sum_of [] = 0
sum_of (x ∷ xs) = x + sum_of xs

-- The checksum of the answer, and the distance in its sixth and seventh byte.
unfoldable pub urm04_distance : List ℕ → ℕ
urm04_distance buf =
    let at = λ (i : ℕ). or_zero (get_elem? buf i) in
    if not (uint8 (at 0 + at 1 + at 2 + at 3 + at 4 + at 5 + at 6) == at 7)
    then urm04_error
    else (at 5 * 2 ^ 8 + at 6)

abbrev pub register_writes : ℕ → ℕ → List ℕ → List (ℕ × ℕ × ℕ)
register_writes dev reg [] = []
register_writes dev reg (x ∷ xs) = (dev, reg, x) ∷ register_writes dev reg xs

module _ (os : Tty) where
  unfoldable pub init_urm04 : ℕ → ℕ → Device os.World → Device os.World
  init_urm04 i2c_addr usart_addr d =
      write_registers os
        ((i2c_addr, iictl, i2c_enable)
          ∷ (usart_addr, uuspd, 19200)
          ∷ (
            usart_addr,
            uuctl,
            usart_en + usart_8bits + usart_rs485 + usart_invrts + usart_rxen + usart_txen,
          )
          ∷ [])
        d

  -- The loop over buf1; s2, the fields and tmout are those that the last byte left.
  unfoldable pub read_bytes : ℕ → ℕ → Poll → Device os.World → Outcome (List ℕ × Device os.World)
  read_bytes zero dev l d = ok ([], d)
  read_bytes (suc n) dev l d = poll os poll_fuel dev uudat l d >>= λ s.
      read_bytes n dev s.0 s.1 >>= λ r. ok (uint8 (regval_of s.0.seen) ∷ r.0, r.1)

  unfoldable pub read_urm04_dist : ℕ → ℕ → Device os.World → Outcome (ℕ × Device os.World)
  unfolding read_bytes
  read_urm04_dist dev_addr urm04_addr d =
      let triggered =
        write_registers os (register_writes dev_addr uudat (urm04_packet urm04_addr 1)) d in
      let asked =
        write_registers os (register_writes dev_addr uudat (urm04_packet urm04_addr 2)) triggered in
      read_bytes 8 dev_addr (fresh none) asked >>= λ r. ok (urm04_distance r.0, r.1)

  -- An analog sensor, or the battery.
  unfoldable pub read_analog : ℕ → Device os.World → Outcome (ℕ × Device os.World)
  read_analog a d = read_register os (usb_address a) ssval alt_analog (fresh none) (
      write_registers os
        ((usb_address a, ssctl, sens_enable + sens_read) ∷ (usb_address a, ssidx, analog_inp) ∷ [])
        d)

  unfoldable pub read_i2c_sensor : ℕ → Device os.World → Outcome (ℕ × Device os.World)
  read_i2c_sensor a d =
      read_register os (usb_address a) iival alt_i2c (fresh none)
        (write_register os (usb_address a) iictl (i2c_enable + i2c_sens) d)

  -- A temperature or humidity of a DHT11 or DHT22, whose addresses begin with `first`.
  unfoldable pub read_dht : ℕ → ℕ → ℕ → Device os.World → Outcome (ℕ × Device os.World)
  read_dht first kind a d =
      let dev = a - first + sensor1 in
      read_register os dev ssval alt_dhtxx (fresh none)
        (write_registers os ((dev, ssctl, sens_enable + sens_read) ∷ (dev, ssidx, kind) ∷ []) d)

  -- The blocks of 16 addresses, each with its own port; then the switch.
  unfoldable pub init_port : ℕ → Device os.World → Device os.World
  init_port a d =
      if is_within a 0x54 0x63
      then init_urm04 i2c1 usart1 d
      else if is_within a 0x64 0x73
      then init_urm04 i2c2 usart2 d
      else if is_within a 0x74 0x83
      then init_urm04 i2c3 usart3 d
      else if is_within a 0x84 0x93
      then init_urm04 i2c4 usart4 d
      else if is_within a 0x94 0xa3
      then init_urm04 i2c5 usart5 d
      else if is_within a 0xa4 0xb3
      then init_urm04 i2c6 usart6 d
      else if is_within a 0xb4 0xc3
      then init_urm04 i2c7 usart7 d
      else d

  read_case : Option (ℕ × ℕ) → Device os.World → Outcome (ℕ × Device os.World)
  read_case none d = ok (no_error, d)
  read_case (some (port, sensor)) d = read_urm04_dist port sensor d

  unfoldable pub read_urm04 : ℕ → Device os.World → Outcome (ℕ × Device os.World)
  unfolding read_case
  read_urm04 a d =
      read_case (find_case a urm04_cases) (record (init_port a d) { alt_func_flag = alt_usart })

  unfoldable pub read_sensor : Bytes → Device os.World → Outcome (ℕ × Device os.World)
  read_sensor i2c_data d =
      let a = dev_address_of i2c_data in
      if is_analog a
      then read_analog a d
      else if is_i2c_sensor a
      then read_i2c_sensor a d
      else if is_within a temp_dht11_1 temp_dht11_14
      then read_dht temp_dht11_1 dhtxx_temp a d
      else if is_within a hum_dht11_1 hum_dht11_14
      then read_dht hum_dht11_1 dhtxx_hum a d
      else if is_within a temp_dht22_1 temp_dht22_14
      then read_dht temp_dht22_1 dhtxx_temp a d
      else if is_within a hum_dht22_1 hum_dht22_14
      then read_dht hum_dht22_1 dhtxx_hum a d
      else if is_within a i2c_u1_0x11 i2c_u7_0x20
      then read_urm04 a d
      else ok (dev_addr_error, d)
