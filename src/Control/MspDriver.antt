-- ===== src/Control/MspDriver.antt =====
-- trikControl/src/mspDriver.cpp, mspUsbCommunicator.cpp, communicatorProvider.cpp and
-- mspBusAutoDetector.cpp: the ways from the brick to the microcontroller.
pub mod Words
mod Tests
use trik_runtime.Prelude.{
  ℕ, ◌-◌, ◌%◌, ◌^◌, Bool, Option, none, some, and_then, ◌∷◌, ltb, if◌then◌else◌,
}
use trik_runtime.Prelude.Int.{ℤ, pos, negsuc}
use trik_runtime.Text.{Bytes}
use trik_runtime.Hal.UsbMsp.Device.{Tty, Device, Outcome, ok, ◌>>=◌}
use trik_runtime.Hal.UsbMsp.Commands.{connect, send_usbmsp, read_usbmsp, disconnect_usbmsp}
use trik_runtime.Hal.I2c.{I2cInterface}
use trik_runtime.Control.DeviceState.{
  Status, off, permanent_failure, is_ready, fail, become_ready, become_off, stop, settled,
}
use trik_runtime.Control.I2cDevice.{
  Communicator, communicator_send, communicator_read, new_msp_communicator,
}

-- A uint32_t result as an int.
abbrev pub int32 : ℕ → ℤ
int32 n = if ltb n (2 ^ 31) then pos n else negsuc (2 ^ 32 - n - 1)

module _ (os : Tty) where
  pub record UsbCommunicator : Type 0 where
    pub status : Status
    pub usb : Device os.World

  unfoldable pub new_usb_communicator : Bool → Device os.World → UsbCommunicator
  new_usb_communicator understand_all_risks d =
      let connected = connect os understand_all_risks d in
      record {
        status = settled off (if connected.0 then become_ready off else fail off);
        usb = connected.1;
      }

  unfoldable pub usb_send : Bytes → UsbCommunicator → Outcome (ℤ × UsbCommunicator)
  usb_send command c =
      let sent = send_usbmsp os command c.usb in
      if is_ready c.status
      then (sent >>= λ r. ok (int32 r.0, record c { usb = r.1 }))
      else ok (negsuc 0, c)

  unfoldable pub usb_read : Bytes → UsbCommunicator → Outcome (ℤ × UsbCommunicator)
  usb_read command c =
      let got = read_usbmsp os command c.usb in
      if is_ready c.status
      then (got >>= λ r. ok (int32 r.0, record c { usb = r.1 }))
      else ok (pos 0, c)

  -- stop, the disconnection, and off.
  unfoldable pub usb_disconnect : UsbCommunicator → UsbCommunicator
  usb_disconnect c =
      let stopped = settled c.status (stop c.status) in
      record c {
        status = settled stopped (become_off stopped);
        usb = (disconnect_usbmsp os c.usb).1;
      }

  -- MspBusAutoDetector::createUsbCommunicator: no communicator where it has failed for good.
  unfoldable pub create_usb_communicator : Bool → Device os.World → Option UsbCommunicator
  unfolding new_usb_communicator
  create_usb_communicator understand_all_risks d =
      let c = new_usb_communicator understand_all_risks d in
      elim c.status [ permanent_failure ↦ none | _ ↦ some c ]

-- CommunicatorCommand: the device, and the bytes for it.
pub record CommunicatorCommand : Type 0 where
  pub device : ℕ
  pub bytes : Bytes

-- The register, a 0, and the bytes of the command.
unfoldable pub to_i2c_payload : CommunicatorCommand → Bytes
to_i2c_payload command = (command.device % 2 ^ 8) ∷ 0 ∷ command.bytes

module _ (os : Tty) (i2c : I2cInterface) where
  pub record MspDriver : Type 0 where
    pub usb : Option (UsbCommunicator os)
    pub i2c_communicator : Option (Communicator i2c)

  -- The result of the communicator is dropped.
  unfoldable pub send : CommunicatorCommand → MspDriver → MspDriver
  send command d = elim d.i2c_communicator [
    | none ↦ d
    | some c ↦ record d {
      i2c_communicator = some (communicator_send i2c (to_i2c_payload command) c).1;
    }
  ]

  unfoldable pub read : CommunicatorCommand → MspDriver → Option (ℤ × MspDriver)
  read command d = elim d.i2c_communicator [
    | none ↦ some (pos 0, d)
    | some c ↦
        and_then (communicator_read i2c (to_i2c_payload command) c)
          (λ r. some (r.0, record d { i2c_communicator = some r.1 }))
  ]

  unfoldable pub status : MspDriver → Status
  status d = elim d.i2c_communicator [
    | some c ↦ c.status
    | none ↦ elim d.usb [ some u ↦ u.status | none ↦ off ]
  ]

  -- The first call of CommunicatorProvider::communicator.
  unfoldable pub new_driver : Bool → Device os.World → Bytes → Option ℤ → i2c.State → MspDriver
  unfolding create_usb_communicator new_msp_communicator
  new_driver understand_all_risks d path device_id s = record {
    usb = create_usb_communicator os understand_all_risks d;
    i2c_communicator = some (new_msp_communicator i2c path device_id s);
  }
