-- ===== src/Control/I2cDevice.antt =====
-- trikControl/src/i2cDevice.cpp and mspI2cCommunicator.cpp: a device on the I2C bus, whose
-- communicator goes through an implementation of MspI2cInterface.
pub mod Registers
mod Tests
use trik_runtime.Prelude.{
  ℕ, zero, suc, ◌+◌, ◌-◌, ◌*◌, ◌/◌, ◌^◌, ◌%◌, ◌≡◌, Bool, true, false, Option, none, some, and_then,
  List, [], ◌∷◌, ◌++◌, if◌then◌else◌, ◌==◌, length,
}
use trik_runtime.Prelude.Int.{ℤ, pos, negsuc}
use trik_runtime.Text.{Bytes}
use trik_runtime.Hal.I2c.{I2cInterface}
use trik_runtime.Control.DeviceState.{
  Status, off, ready, Outcome, is_ready, fail, become_ready, become_off, settled, combine,
}

-- The modes of I2cDevice, "b", "w" and any other text.
pub data Mode : Type 0 where
  byte_mode word_mode other_mode : Mode

-- n & 0xFF and (n >> 8) & 0xFF of an int.
abbrev pub low_byte : ℤ → ℕ
low_byte (pos n) = n % 2 ^ 8
low_byte (negsuc n) = 2 ^ 8 - 1 - n % 2 ^ 8

abbrev pub high_byte : ℤ → ℕ
high_byte (pos n) = n / 2 ^ 8 % 2 ^ 8
high_byte (negsuc n) = 2 ^ 8 - 1 - n / 2 ^ 8 % 2 ^ 8

module _ (i2c : I2cInterface) where
  pub record Communicator : Type 0 where
    pub status : Status
    pub i2c_state : i2c.State

  -- The second constructor, on bus 1 or 2 with the path that the configurer has for it; `none` stands for
  -- any other bus.
  unfoldable pub new_communicator : Option Bytes → ℤ → i2c.State → Communicator
  new_communicator none device_id s = record { status = settled off (fail off); i2c_state = s }
  new_communicator (some path) device_id s =
      let connected = i2c.connect path device_id s in
      record {
        status = settled off (if connected.0 then become_ready off else fail off);
        i2c_state = connected.1;
      }

  -- The first constructor, with the path that the configurer has and the device id, if its text is a
  -- number.
  unfoldable pub new_msp_communicator : Bytes → Option ℤ → i2c.State → Communicator
  new_msp_communicator path none s = record { status = settled off (fail off); i2c_state = s }
  new_msp_communicator path (some device_id) s =
      let connected = i2c.connect path device_id s in
      record {
        status = settled off (if connected.0 then become_ready off else fail off);
        i2c_state = connected.1;
      }

  unfoldable pub communicator_send : Bytes → Communicator → ℤ × Communicator
  communicator_send command c =
      let sent = i2c.send command c.i2c_state in
      if is_ready c.status then (sent.0, record c { i2c_state = sent.1 }) else (negsuc 0, c)

  unfoldable pub communicator_read : Bytes → Communicator → Option (ℤ × Communicator)
  communicator_read command c =
      let got = i2c.read command c.i2c_state in
      if is_ready c.status
      then and_then got (λ r. some (r.0, record c { i2c_state = r.1 }))
      else some (pos 0, c)

  unfoldable pub communicator_read_x : Bytes → Communicator → Bytes × Communicator
  communicator_read_x command c =
      let got = i2c.read_x command c.i2c_state in
      if is_ready c.status then (got.0, record c { i2c_state = got.1 }) else ([], c)

  -- An exception of the device state is not caught: it leaves the state as it was.
  unfoldable pub communicator_disconnect : Communicator → Communicator
  communicator_disconnect c = record c {
    status = settled c.status (become_off c.status);
    i2c_state = i2c.disconnect c.i2c_state;
  }

  pub record I2cDevice : Type 0 where
    pub state : Status
    pub communicator : Communicator

  unfoldable pub new : Option Bytes → ℤ → i2c.State → I2cDevice
  unfolding new_communicator
  new path address s = record {
    state = settled off (become_ready off);
    communicator = new_communicator path address s;
  }

  unfoldable pub status : I2cDevice → Status
  status d = combine d.communicator.status d.state

  with_result : I2cDevice → ℤ × Communicator → ℤ × I2cDevice
  with_result d (r, c) = (r, record d { communicator = c })

  unfoldable pub send : ℤ → ℤ → Mode → I2cDevice → ℤ × I2cDevice
  unfolding with_result status
  send reg value mode d =
      let command = low_byte reg ∷ high_byte reg ∷ low_byte value ∷ [] in
      let by_byte = with_result d (communicator_send command d.communicator) in
      let by_word =
        with_result d (communicator_send (command ++ (high_byte value ∷ [])) d.communicator) in
      if is_ready (status d)
      then (elim mode [ byte_mode ↦ by_byte | word_mode ↦ by_word | other_mode ↦ (negsuc 0, d) ])
      else (negsuc 0, d)

  unfoldable pub read : ℤ → Mode → I2cDevice → Option (ℤ × I2cDevice)
  unfolding with_result
  read reg mode d =
      let size : ℕ = elim mode [ word_mode ↦ 2 | _ ↦ 1 ] in
      and_then (communicator_read (low_byte reg ∷ high_byte reg ∷ size ∷ 0 ∷ []) d.communicator)
        (λ r. some (with_result d r))

  unfoldable pub read_x : ℤ → ℤ → I2cDevice → Bytes × I2cDevice
  read_x reg size d =
      let r =
        communicator_read_x (low_byte reg ∷ high_byte reg ∷ low_byte size ∷ high_byte size ∷ [])
          d.communicator in
      (r.0, record d { communicator = r.1 })
