-- ===== src/Hal/I2c.antt =====
-- trikHal/include/trikHal/mspI2cInterface.h and the I2C bus as the operating system offers it.
pub mod Common
pub mod Smbus
use trik_runtime.Prelude.{ℕ, Bool, Option, List}
use trik_runtime.Prelude.Int.{ℤ}
use trik_runtime.Text.{Bytes}

-- struct i2c_msg: the flag tells whether it is a read (I2C_M_RD).
pub record I2cMsg : Type 0 where
  pub addr : ℕ
  pub is_read : Bool
  pub len : ℕ
  pub buf : Bytes

-- The calls of the operating system.
pub record I2cBus : Type 1 where
  pub World : Type 0
  pub open_file : Bytes → World → ℤ × World  -- open: the descriptor, negative on an error
  pub set_slave : ℤ → World → ℤ × World  -- ioctl with I2C_SLAVE: not 0 on an error
  pub rdwr : List I2cMsg → World → ℤ × List Bytes × World  -- ioctl with I2C_RDWR: also the buffers after it
  pub read_byte : ℕ → World → Option ℕ × World  -- SMBus accesses by their command
  pub read_word : ℕ → World → Option ℕ × World
  pub read_block : ℕ → ℕ → World → Option Bytes × World  -- with the length
  pub write_byte : ℕ → ℕ → World → ℤ × World
  pub write_word : ℕ → ℕ → World → ℤ × World
  pub close : World → World

-- MspI2cInterface, over the state of its implementation; `none` is a read beyond the end of a vector.
pub record I2cInterface : Type 1 where
  pub State : Type 0
  pub connect : Bytes → ℤ → State → Bool × State
  pub send : Bytes → State → ℤ × State
  pub read : Bytes → State → Option (ℤ × State)
  pub read_x : Bytes → State → Bytes × State
  pub disconnect : State → State
