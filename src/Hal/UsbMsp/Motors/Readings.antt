-- ===== src/Hal/UsbMsp/Motors/Readings.antt =====
-- Readings of encoders from a microcontroller that answers every question with one packet.
use trik_runtime.Prelude.{
  ℕ, suc, ◌^◌, ◌<◌, ◌≡◌, refl, true, false, none, some, [], arith, not, ◌==◌, ◌||◌,
}
use trik_runtime.Prelude.Int.{pos}
use trik_runtime.Text.{Bytes}
use trik_runtime.Prelude.Int.{is_negative}
use trik_runtime.Hal.UsbMsp.Defines.Registers.{device_error, eeval, eectl, alt_enc}
use trik_runtime.Hal.UsbMsp.Packets.{
  Fields, frame, strlen, make_read_reg_packet, decode_received_packet,
}
use trik_runtime.Hal.UsbMsp.Packets.Decoding.{
  IsPacket, decode_received_packet-fields, length-frame, strlen-make_read_reg_packet,
}
use trik_runtime.Hal.UsbMsp.Device.{
  Tty, Device, ok, fault, uninitialized, Buffer, fresh, goes_on, poll_round, poll, write_register,
  send_usb_packet,
}
use trik_runtime.Hal.UsbMsp.Device.Exchange.{send_usb_packet_answered, write_register-globals}
use trik_runtime.Hal.UsbMsp.Motors.{
  dev_address_of, is_encoder, usb_address, encoder_control, read_register, read_encoder,
}

-- The system takes every packet, and the answer is always the same.
pub record Answers (os : Tty) (b : Bytes) : Type 0 where
  pub takes : (p : Bytes) (w : os.World) → (os.write p w).0 ≡ pos (strlen p)
  pub says : (w : os.World) → (os.read w).0 ≡ some b

module _ (os : Tty) where
  -- What the first round of the loop leaves.
  first_round :
      (dev reg : ℕ) (f : Fields) (crc : ℕ) (s2 : Buffer) (d : Device os.World)
      → IsPacket f
      → crc < 2 ^ 8
      → Answers os (frame f crc)
      → is_negative d.usb_out_descr ≡ false
      → (d' : Device os.World) × (poll_round os dev reg (fresh s2) d
          ≡ ok (record { s2 = some (frame f crc); seen = some f; tmout = 1 }, d'))
  unfolding poll_round
  first_round dev reg f crc s2 d h k a up =
      let p = make_read_reg_packet dev reg in
      let len = strlen-make_read_reg_packet dev reg in
      let (d', e, same) =
        send_usb_packet_answered os p s2 d (frame f crc) up (a.takes p d.world)
          (rw len (omega arith)) (a.says _) (length-frame f crc) in
      (d', rw e (rw (decode_received_packet-fields f crc h k) refl))

  poll_first :
      (dev reg : ℕ) (f : Fields) (crc : ℕ) (s2 : Buffer) (d : Device os.World)
      → IsPacket f
      → crc < 2 ^ 8
      → Answers os (frame f crc)
      → is_negative d.usb_out_descr ≡ false
      → f.dev_addr ≡ dev
      → f.reg_addr ≡ reg
      → (rounds : ℕ)
      → (d' : Device os.World) × (poll os (suc rounds) dev reg (fresh s2) d
          ≡ ok (record { s2 = some (frame f crc); seen = some f; tmout = 1 }, d'))
  unfolding poll goes_on
  poll_first dev reg f crc s2 d h k a up p q rounds =
      let (d', e) = first_round dev reg f crc s2 d h k a up in
      let same : not (f.dev_addr == dev) || not (f.reg_addr == reg) ≡ false = ground arith in
      (d', rw e (rw same refl))

  -- An encoder's value is taken from a packet whatever the checksum of the packet is: a value that
  -- was damaged on its way is returned as the reading. The microcontroller answers at once, with a
  -- packet that names the register.
  pub read_encoder_unchecked :
      (i2c_data : Bytes) (f : Fields) (crc : ℕ) (d : Device os.World)
      → is_encoder (dev_address_of i2c_data) ≡ true
      → IsPacket f
      → crc < 2 ^ 8
      → f.dev_addr ≡ usb_address (dev_address_of i2c_data)
      → f.reg_addr ≡ eeval
      → Answers os (frame f crc)
      → is_negative d.usb_out_descr ≡ false
      → (d' : Device os.World) × (read_encoder os i2c_data d ≡ ok (f.reg_val, d'))
  unfolding read_encoder read_register
  read_encoder_unchecked c f crc d enc h k p q a up =
      let dev = usb_address (dev_address_of c) in
      let ready = write_register os dev eectl encoder_control d in
      let still : is_negative ready.usb_out_descr ≡ false =
        rw (write_register-globals os dev eectl encoder_control d) up in
      let (d', e) = poll_first dev eeval f crc (some []) ready h k a still p q 65535 in
      (record d' { alt_func_flag = alt_enc }, rw enc (rw e refl))

  send_closed :
      (p : Bytes) (out : Buffer) (d : Device os.World)
      → is_negative d.usb_out_descr ≡ true
      → send_usb_packet os p out d ≡ (device_error, out, d)
  unfolding send_usb_packet
  send_closed p out d down = rw down refl

  round_closed :
      (dev reg : ℕ) (d : Device os.World)
      → is_negative d.usb_out_descr ≡ true
      → poll_round os dev reg (fresh (some [])) d
        ≡ ok (record { s2 = some []; seen = none; tmout = 1 }, d)
  unfolding poll_round decode_received_packet
  round_closed dev reg d down =
      rw (send_closed (make_read_reg_packet dev reg) (some []) d down) refl

  poll_closed :
      (dev reg rounds : ℕ) (d : Device os.World)
      → is_negative d.usb_out_descr ≡ true
      → poll os (suc rounds) dev reg (fresh (some [])) d ≡ fault uninitialized
  unfolding poll goes_on
  poll_closed dev reg rounds d down = rw (round_closed dev reg d down) refl

  -- When the device is not open, the first packet never comes, and devaddr is read although nothing has
  -- been assigned to it.
  pub read_encoder_closed :
      (i2c_data : Bytes) (d : Device os.World)
      → is_encoder (dev_address_of i2c_data) ≡ true
      → is_negative d.usb_out_descr ≡ true
      → read_encoder os i2c_data d ≡ fault uninitialized
  unfolding read_encoder read_register
  read_encoder_closed c d enc down =
      let dev = usb_address (dev_address_of c) in
      let ready = write_register os dev eectl encoder_control d in
      let still : is_negative ready.usb_out_descr ≡ true =
        rw (write_register-globals os dev eectl encoder_control d) down in
      rw enc (rw (poll_closed dev eeval 65535 ready still) refl)
