-- ===== src/Core.antt =====
-- The nodes of canopen_core and what brings them up and down.
pub mod Action
pub mod Driver
pub mod Master
pub mod Manager
pub mod Config
pub mod Container
