-- ===== src/Cia402/Mode.antt =====
-- The operation modes of a drive: canopen_402_driver/include/canopen_402_driver/mode.hpp and the
-- classes derived from `Mode`.
pub mod Target
pub mod Forward
pub mod Profiled
pub mod Homing
pub mod Object
pub mod Isolation
