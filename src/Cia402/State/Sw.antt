-- ===== src/Cia402/State/Sw.antt =====
-- The bit positions of `State402::StatusWord`
-- (canopen_402_driver/include/canopen_402_driver/state.hpp).
use ros2_canopen.Base.{ℕ}

abbrev pub ready_to_switch_on : ℕ
ready_to_switch_on = 0

abbrev pub switched_on : ℕ
switched_on = 1

abbrev pub operation_enabled : ℕ
operation_enabled = 2

abbrev pub fault : ℕ
fault = 3

abbrev pub voltage_enabled : ℕ
voltage_enabled = 4

abbrev pub quick_stop : ℕ
quick_stop = 5

abbrev pub switch_on_disabled : ℕ
switch_on_disabled = 6

abbrev pub warning : ℕ
warning = 7

abbrev pub remote : ℕ
remote = 9

abbrev pub target_reached : ℕ
target_reached = 10

abbrev pub internal_limit : ℕ
internal_limit = 11

abbrev pub operation_mode_specific0 : ℕ
operation_mode_specific0 = 12

abbrev pub operation_mode_specific1 : ℕ
operation_mode_specific1 = 13

abbrev pub manufacturer_specific1 : ℕ
manufacturer_specific1 = 14
