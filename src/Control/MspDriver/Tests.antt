-- ===== src/Control/MspDriver/Tests.antt =====
-- trikControl/src/mspDriver.cpp: tests, with a bus that keeps the words that are written to it.
use trik_runtime.Prelude.{ℕ, ◌≡◌, refl, Bool, true, Option, none, some, [], if◌then◌else◌, ◌==◌}
use trik_runtime.Prelude.Int.{pos, negsuc}
use trik_runtime.Text.{codes}
use trik_runtime.Hal.UsbMsp.Device.{Tty, Device}
use trik_runtime.Hal.I2c.{I2cBus}
use trik_runtime.Hal.I2c.Smbus
use trik_runtime.Hal.I2c.Smbus.{TrikI2c, trik_i2c}
use trik_runtime.Control.MspDriver.{MspDriver, new_driver, read}

-- No USB device is there.
abbrev unplugged : Tty
unplugged = record {
  World = ℕ;
  open_device = λ w. (negsuc 0, w);
  set_attributes = λ w. w;
  write = λ p w. (negsuc 0, w);
  read = λ w. (none, w);
  close = λ w. w;
}

abbrev usb : Device ℕ
usb = record { mper = 0; sper = 0; usb_out_descr = pos 0; alt_func_flag = 0; world = 0 }

abbrev words : I2cBus
words = record {
  World = ℕ → ℕ;
  open_file = λ path w. (pos 4, w);
  set_slave = λ id w. (pos 0, w);
  rdwr = λ m w. (negsuc 0, [], w);
  read_byte = λ c w. (some (w c), w);
  read_word = λ c w. (some (w c), w);
  read_block = λ c n w. (none, w);
  write_byte = λ c v w. (pos 0, λ r. if r == c then v else w r);
  write_word = λ c v w. (pos 0, λ r. if r == c then v else w r);
  close = λ w. w;
}

abbrev started : MspDriver unplugged (trik_i2c words)
started =
    new_driver unplugged (trik_i2c words) true usb (codes "/dev/i2c-2") (some (pos 0x48))
      (record { device_file_descriptor = negsuc 0; world = λ r. 0 })

abbrev connected : Bool × TrikI2c (ℕ → ℕ)
connected =
    Smbus.connect words (codes "/dev/i2c-2") (pos 0x48)
      (record { device_file_descriptor = negsuc 0; world = λ r. 0 })

abbrev got_word : Option ℕ × (ℕ → ℕ)
got_word = words.read_word 0x26 (words.write_word 0x26 0x1234 connected.1.world).1

word_read : (connected.0 ≡ true) × (got_word.0 ≡ some 0x1234)
unfolding Smbus.connect
word_read = (refl, refl)
