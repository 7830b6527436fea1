-- ===== src/Hal/UsbMsp/Defines.antt =====
-- trikHal/src/trik/usbMsp/usbMSP430Defines.h: addresses, registers and masks that the interface uses.
pub mod Requests
pub mod Devices
pub mod Registers
