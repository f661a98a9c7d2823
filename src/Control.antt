-- ===== src/Control.antt =====
-- The interfaces of ros2_control: the values that hardware and controllers share, the hardware
-- interfaces `CanopenSystem` and `Cia402System`, and the controller `CanopenProxyController`
-- (canopen_ros2_control, canopen_ros2_controllers).
pub mod Value
pub mod Node
pub mod System
pub mod Drives
pub mod Robot
pub mod Proxy
