-- ===== src/Cia402/Command/Cw.antt =====
-- The bit positions of `Command402::ControlWord`
-- (canopen_402_driver/include/canopen_402_driver/command.hpp).
use ros2_canopen.Base.{ℕ}

abbrev pub switch_on : ℕ
switch_on = 0

abbrev pub enable_voltage : ℕ
enable_voltage = 1

abbrev pub quick_stop : ℕ
quick_stop = 2

abbrev pub enable_operation : ℕ
enable_operation = 3

abbrev pub operation_mode_specific0 : ℕ
operation_mode_specific0 = 4

abbrev pub operation_mode_specific1 : ℕ
operation_mode_specific1 = 5

abbrev pub operation_mode_specific2 : ℕ
operation_mode_specific2 = 6

abbrev pub fault_reset : ℕ
fault_reset = 7

abbrev pub halt : ℕ
halt = 8

abbrev pub operation_mode_specific3 : ℕ
operation_mode_specific3 = 9
