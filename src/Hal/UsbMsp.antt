-- ===== src/Hal/UsbMsp.antt =====
-- trikHal/src/trik/usbMsp: the protocol of the MSP430 microcontroller on the USB bus.
pub mod Defines
pub mod Hex
pub mod Packets
pub mod Device
pub mod Motors
pub mod UltrasonicPorts
pub mod Sensors
pub mod Commands
mod Tests
