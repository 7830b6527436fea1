-- ===== src/Hal/I2c/Common.antt =====
-- trikHal/src/trik/commonI2c.cpp: I2C messages to a device with registers of one or two bytes.
-- Characters are unsigned, as on the controller.
pub mod Transfers
use trik_runtime.Prelude.{
  ℕ, zero, suc, ◌+◌, ◌*◌, ◌^◌, ◌%◌, ◌≡◌, Bool, true, false, Option, none, some, and_then, List, [],
  ◌∷◌, if◌then◌else◌, ◌==◌, ltb, leb, length, replicate, take, set, get_elem?, ◌-◌, or_zero, not,
}
use trik_runtime.Prelude.Int.{ℤ, pos, negsuc, is_negative, is_zero}
use trik_runtime.Text.{Bytes, byte}
use trik_runtime.Hal.I2c.{I2cMsg, I2cBus, I2cInterface}

pub record CommonI2c (World : Type 0) : Type 0 where
  pub reg_size : ℕ
  pub device_file_descriptor : ℤ
  pub device_address : ℕ
  pub world : World

-- CommonI2c::CommonI2c.
unfoldable pub new : {World : Type 0} → ℕ → World → CommonI2c World
new reg_size w = record {
  reg_size = reg_size;
  device_file_descriptor = negsuc 0;
  device_address = 0;
  world = w;
}

-- An int as a ushort.
abbrev pub uint16 : ℤ → ℕ
uint16 (pos n) = n % 2 ^ 16
uint16 (negsuc n) = 2 ^ 16 - 1 - n % 2 ^ 16

-- I2C_RDRW_IOCTL_MAX_MSGS of the kernel.
abbrev pub max_msgs : ℕ
max_msgs = 42

-- The bytes of the register's address, the high one first where it has two; cmd has two bytes.
abbrev pub register_bytes : ℕ → Bytes → Bytes
register_bytes reg_size request =
    if reg_size == 2 then byte request 1 ∷ byte request 0 ∷ [] else byte request 0 ∷ 0 ∷ []

abbrev pub size_for_read : Bytes → ℕ
size_for_read request = byte request 3 * 2 ^ 8 + byte request 2

-- What CommonI2c::send writes.
abbrev pub message_bytes : ℕ → Bytes → Bytes
message_bytes reg_size request =
    if reg_size == 1
    then (if length request == 4
        then byte request 0 ∷ byte request 3 ∷ byte request 2 ∷ []
        else byte request 0 ∷ byte request 2 ∷ [])
    else if length request == 4
    then byte request 1 ∷ byte request 0 ∷ byte request 3 ∷ byte request 2 ∷ []
    else byte request 1 ∷ byte request 0 ∷ byte request 2 ∷ []

-- A message of MspI2cInterface: whether its type is "read", and its data.
pub record Message : Type 0 where
  pub is_read : Bool
  pub bytes : Bytes

-- The buffer of the second message.
abbrev pub second : List Bytes → Bytes
second [] = []
second (a ∷ []) = []
second (a ∷ (b ∷ bs)) = b

-- `none` where the answer has no second byte.
abbrev pub word_of : Bytes → Option ℤ
word_of [] = none
word_of (low ∷ []) = none
word_of (low ∷ (high ∷ bs)) = some (pos (high * 2 ^ 8 + low))

-- The messages of the slots that are written.
abbrev pub written : List (Option I2cMsg) → List I2cMsg
written [] = []
written (none ∷ ms) = written ms
written (some m ∷ ms) = m ∷ written ms

-- The loop of transfer over the array msgs, whose slots are `none` until they are written; the first
-- result is counter.
unfoldable pub fill_messages :
    ℕ → ℕ → List Message → List (Option I2cMsg) → ℕ × List (Option I2cMsg)
fill_messages addr counter [] msgs = (counter, msgs)
fill_messages addr counter (m ∷ ms) msgs = fill_messages addr counter ms (
    set msgs counter (
      some (record {
        addr = addr;
        is_read = m.is_read;
        len = length m.bytes % 2 ^ 16;
        buf = m.bytes;
      })))

module _ (bus : I2cBus) where
  unfoldable pub connect : Bytes → ℤ → CommonI2c bus.World → Bool × CommonI2c bus.World
  connect path id s =
      let opened = bus.open_file path s.world in
      let slave = bus.set_slave id opened.1 in
      if is_negative opened.0
      then (false, record s { device_file_descriptor = opened.0; world = opened.1 })
      else if not (is_zero slave.0)
      then (false, record s { device_file_descriptor = opened.0; world = slave.1 })
      else (
        true,
        record s { device_file_descriptor = opened.0; device_address = uint16 id; world = slave.1 },
      )

  unfoldable pub disconnect : CommonI2c bus.World → CommonI2c bus.World
  disconnect s = record s { world = bus.close s.world }

  unfoldable pub read_x : Bytes → CommonI2c bus.World → Bytes × CommonI2c bus.World
  read_x request s =
      let size = size_for_read request in
      let done =
        bus.rdwr
          (record {
            addr = s.device_address;
            is_read = false;
            len = s.reg_size;
            buf = register_bytes s.reg_size request;
          }
            ∷ record { addr = s.device_address; is_read = true; len = size; buf = replicate size 0 }
            ∷ [])
          s.world in
      if ltb (length request) 4
      then ([], s)
      else if is_negative done.0
      then ([], record s { world = done.2 })
      else (second done.1, record s { world = done.2 })

  unfoldable pub read : Bytes → CommonI2c bus.World → Option (ℤ × CommonI2c bus.World)
  read request s =
      let got = read_x request s in
      let size = size_for_read request in
      if ltb (length request) 4
      then some (negsuc 0, s)
      else if ltb (length got.0) size
      then some (negsuc 0, got.1)
      else if size == 1
      then and_then (get_elem? got.0 0) (λ b. some (pos b, got.1))
      else and_then (word_of got.0) (λ v. some (v, got.1))

  unfoldable pub write : Bytes → CommonI2c bus.World → ℤ × CommonI2c bus.World
  write bytes s =
      let done =
        bus.rdwr
          (record { addr = s.device_address; is_read = false; len = length bytes; buf = bytes }
            ∷ [])
          s.world in
      (done.0, record s { world = done.2 })

  unfoldable pub send : Bytes → CommonI2c bus.World → ℤ × CommonI2c bus.World
  send request s =
      if ltb (length request) 3 then (negsuc 0, s) else write (message_bytes s.reg_size request) s

  unfoldable pub write_register : ℕ → ℕ → CommonI2c bus.World → ℤ × CommonI2c bus.World
  write_register reg value s = write (reg ∷ value ∷ []) s

  -- The first `counter` messages of the array go to the bus.
  unfoldable pub transfer : List Message → CommonI2c bus.World → ℤ × CommonI2c bus.World
  unfolding fill_messages
  transfer messages s =
      let filled = fill_messages s.device_address 0 messages (replicate max_msgs none) in
      let done = bus.rdwr (written (take filled.0 filled.1)) s.world in
      if ltb max_msgs (length messages)
      then (negsuc 0, s)
      else (done.0, record s { world = done.2 })

  -- Where CommonI2c stands for its interface.
  abbrev pub common_i2c : I2cInterface
  common_i2c = record {
    State = CommonI2c bus.World;
    connect = connect;
    send = send;
    read = read;
    read_x = read_x;
    disconnect = disconnect;
  }
