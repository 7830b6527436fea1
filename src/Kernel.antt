-- ===== src/Kernel.antt =====
-- trikKernel: the configuration of a robot.
pub mod Xml
pub mod Configurer
pub mod TimeVal
