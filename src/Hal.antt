-- ===== src/Hal.antt =====
-- trikHal: access to the hardware of the controller.
pub mod I2c
pub mod Fifo
pub mod UsbMsp
pub mod VideoDevice
