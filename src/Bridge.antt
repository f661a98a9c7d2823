-- ===== src/Bridge.antt =====
-- The bridge to lely: `LelyDriverBridge`
-- (canopen_base_driver/include/canopen_base_driver/lely_driver_bridge.hpp,
-- canopen_base_driver/src/lely_driver_bridge.cpp).
pub mod Pdo
pub mod Dictionary
pub mod Sdo
pub mod Access
pub mod Boot
