-- ===== src/Control/MspDriver/Words.antt =====
-- trikControl/src/mspDriver.cpp over trikHal/src/trik/trikI2c.cpp: words that go to the microcontroller.
use trik_runtime.Hal.UsbMsp.Device.{Device}
use trik_runtime.Hal.I2c.Smbus
