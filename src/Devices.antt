-- ===== src/Devices.antt =====
-- The drivers of particular devices: the radio remote of canopen_401_driver, the node around the
-- valve of canopen_408_driver, and the inclinometer of canopen_410_driver.
pub mod Remote
pub mod Valve
pub mod Inclinometer
