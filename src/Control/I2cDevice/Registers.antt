-- ===== src/Control/I2cDevice/Registers.antt =====
-- Words that are written to a register and read back, through both ways to the bus.
use trik_runtime.Prelude.{ℕ, ◌+◌, ◌*◌, ◌^◌, ◌<◌, ◌≡◌, refl, true, false, some, [], ◌∷◌, arith}
use trik_runtime.Prelude.Int.{ℤ, pos, negsuc, is_negative}
use trik_runtime.Hal.I2c.{I2cInterface, I2cBus}
use trik_runtime.Hal.I2c.Common.{CommonI2c, common_i2c, read_x, write, uint16}
use trik_runtime.Hal.I2c.Smbus
use trik_runtime.Hal.I2c.Common
use trik_runtime.Control.DeviceState.{ready, combine}
use trik_runtime.Control.I2cDevice.{
  I2cDevice, word_mode, low_byte, high_byte, communicator_send, communicator_read, send, read,
}

-- A device that is ready.
abbrev pub working : (i2c : I2cInterface) → i2c.State → I2cDevice i2c
working i2c s = record { state = ready; communicator = record { status = ready; i2c_state = s } }

uint16-lt : (v : ℤ) → uint16 v < 2 ^ 16
uint16-lt (pos n) = omega arith
uint16-lt (negsuc n) = omega arith

-- What the bytes of a register read as, after they are written behind its address; the register and
-- the value have two bytes each.
pub record Stores (bus : I2cBus) (addr : ℕ) : Type 0 where
  pub bytes_stored :
      (high low a b : ℕ) (w : bus.World)
      → (let sent =
            bus.rdwr
              (record { addr = addr; is_read = false; len = 4; buf = high ∷ low ∷ a ∷ b ∷ [] } ∷ [])
              w in
          let got =
            bus.rdwr
              (record { addr = addr; is_read = false; len = 2; buf = high ∷ low ∷ [] }
                ∷ record { addr = addr; is_read = true; len = 2; buf = 0 ∷ 0 ∷ [] }
                ∷ [])
              sent.2 in
          (is_negative got.0 ≡ false) × (got.1 ≡ (high ∷ low ∷ []) ∷ (a ∷ b ∷ []) ∷ []))

module _ (bus : I2cBus) where
  -- A word that is sent to a register of two bytes of another device is read back with its bytes in
  -- exchanged places: it is written with the high byte first, and read with the low byte first. The
  -- device stores the bytes that follow the address of a register, and gives them back in their order.
  pub read-send_swapped :
      (reg value : ℤ) (addr : ℕ) (descr : ℤ) (w : bus.World)
      → Stores bus addr
      → (d : I2cDevice (common_i2c bus)) × (read
            (common_i2c bus)
            reg
            word_mode
            (send (common_i2c bus) reg value word_mode (
              working (common_i2c bus) (record {
                reg_size = 2;
                device_file_descriptor = descr;
                device_address = addr;
                world = w;
              }))).1
          ≡ some (pos (low_byte value * 2 ^ 8 + high_byte value), d))
  unfolding read send communicator_send communicator_read combine Common.send Common.read read_x
      write
  read-send_swapped reg value addr descr w m =
      let law =
        m.bytes_stored (high_byte reg) (low_byte reg) (high_byte value) (low_byte value) w in
      let sent =
        bus.rdwr
          (record {
            addr = addr;
            is_read = false;
            len = 4;
            buf = high_byte reg ∷ low_byte reg ∷ high_byte value ∷ low_byte value ∷ [];
          }
            ∷ [])
          w in
      let got =
        bus.rdwr
          (record { addr = addr; is_read = false; len = 2; buf = high_byte reg ∷ low_byte reg ∷ [] }
            ∷ record { addr = addr; is_read = true; len = 2; buf = 0 ∷ 0 ∷ [] }
            ∷ [])
          sent.2 in
      (
        working (common_i2c bus) (record {
          reg_size = 2;
          device_file_descriptor = descr;
          device_address = addr;
          world = got.2;
        }),
        rw law.0 (rw law.1 refl),
      )
