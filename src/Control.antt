-- ===== src/Control.antt =====
-- trikControl: devices of the brick.
pub mod DeviceState
pub mod DataFilter
pub mod RangeSensor
pub mod VirtualSensor
pub mod ColorSensor
pub mod DspSensor
pub mod CameraManager
pub mod Keys
pub mod Gamepad
pub mod Lidar
pub mod I2cDevice
pub mod MspDriver
pub mod FifoWorker
