-- ===== src/Valve408/Cw.antt =====
-- `ControlWord` (canopen_408_driver/include/canopen_408_driver/hydraulic_axis.hpp).
use ros2_canopen.Base.{ℕ}

abbrev pub init : ℕ
init = 8

abbrev pub disabled : ℕ
disabled = 9

abbrev pub hold : ℕ
hold = 11

abbrev pub active : ℕ
active = 15

abbrev pub fault_reset : ℕ
fault_reset = 3
