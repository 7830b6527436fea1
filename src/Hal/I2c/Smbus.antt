-- ===== src/Hal/I2c/Smbus.antt =====
-- trikHal/src/trik/trikI2c.cpp: the microcontroller behind SMBus accesses. Characters are unsigned,
-- as on the controller.
use trik_runtime.Prelude.{
  ℕ, ◌+◌, ◌-◌, ◌*◌, ◌^◌, ◌%◌, Bool, false, Option, none, some, [], ◌++◌, if◌then◌else◌, ◌==◌, ltb,
  leb, length, replicate, drop, min,
}
use trik_runtime.Prelude.Int.{ℤ, pos, negsuc, is_negative, is_zero}
use trik_runtime.Text.{Bytes, byte}
use trik_runtime.Hal.I2c.{I2cBus, I2cInterface}

pub record TrikI2c (World : Type 0) : Type 0 where
  pub device_file_descriptor : ℤ
  pub world : World

abbrev pub block_max : ℕ
block_max = 32

abbrev pub read_size : Bytes → ℕ
read_size request = byte request 3 * 2 ^ 8 + byte request 2

-- The result of a read, -1 where the access failed.
abbrev pub result_of : Option ℕ → ℤ
result_of none = negsuc 0
result_of (some n) = pos n

-- The values that an access has read are stored over the first bytes of the buffer. The access reads
-- as many as it was asked for at most, so they fit.
abbrev pub stored : Option Bytes → Bytes → Bytes
stored none buffer = buffer
stored (some values) buffer = values ++ drop (length values) buffer

-- Four bytes as an int: buffer[3] << 24 | buffer[2] << 16 | buffer[1] << 8 | buffer[0].
abbrev pub int32 : ℕ → ℤ
int32 n = if ltb n (2 ^ 31) then pos n else negsuc (2 ^ 32 - n - 1)

abbrev pub int_of_bytes : Bytes → ℤ
int_of_bytes b = int32 (byte b 3 * 2 ^ 24 + byte b 2 * 2 ^ 16 + byte b 1 * 2 ^ 8 + byte b 0)

-- The length that i2c_smbus_read_i2c_block_data asks for, a __u8.
abbrev pub block_length : ℕ → ℕ
block_length size = min (size % 2 ^ 8) block_max

module _ (bus : I2cBus) where
  unfoldable pub connect : Bytes → ℤ → TrikI2c bus.World → Bool × TrikI2c bus.World
  connect path id s =
      let opened = bus.open_file path s.world in
      let slave = bus.set_slave id opened.1 in
      if is_negative opened.0
      then (false, record { device_file_descriptor = opened.0; world = opened.1 })
      else (is_zero slave.0, record { device_file_descriptor = opened.0; world = slave.1 })

  unfoldable pub disconnect : TrikI2c bus.World → TrikI2c bus.World
  disconnect s = record s { world = bus.close s.world }

  unfoldable pub send : Bytes → TrikI2c bus.World → ℤ × TrikI2c bus.World
  send request s =
      let by_byte = bus.write_byte (byte request 0) (byte request 2) s.world in
      let by_word =
        bus.write_word (byte request 0) (byte request 2 + byte request 3 * 2 ^ 8) s.world in
      if length request == 3
      then (by_byte.0, record s { world = by_byte.1 })
      else (by_word.0, record s { world = by_word.1 })

  unfoldable pub read : Bytes → TrikI2c bus.World → Option (ℤ × TrikI2c bus.World)
  read request s =
      let size = read_size request in
      let command = byte request 0 in
      let by_byte = bus.read_byte command s.world in
      let by_word = bus.read_word command s.world in
      let block = bus.read_block command 4 s.world in
      if ltb (length request) 4
      then some (negsuc 0, s)
      else if size == 1
      then some (result_of by_byte.0, record s { world = by_byte.1 })
      else if size == 2
      then some (result_of by_word.0, record s { world = by_word.1 })
      else if leb size 4
      then some (int_of_bytes (stored block.0 (replicate 4 0)), record s { world = block.1 })
      else some (negsuc 0, s)

  unfoldable pub read_x : Bytes → TrikI2c bus.World → Bytes × TrikI2c bus.World
  read_x request s =
      let size = read_size request in
      let block = bus.read_block (byte request 0) (block_length size) s.world in
      if ltb (length request) 4
      then ([], s)
      else (stored block.0 (replicate (min 32 size) 0), record s { world = block.1 })

  abbrev pub trik_i2c : I2cInterface
  trik_i2c = record {
    State = TrikI2c bus.World;
    connect = connect;
    send = send;
    read = read;
    read_x = read_x;
    disconnect = disconnect;
  }
