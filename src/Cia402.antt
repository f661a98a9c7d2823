-- ===== src/Cia402.antt =====
-- The CiA 402 drive driver, package canopen_402_driver.
pub mod Driver
pub mod State
pub mod Command
pub mod Word
pub mod Mode
pub mod Motor
