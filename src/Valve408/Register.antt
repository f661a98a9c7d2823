-- ===== src/Valve408/Register.antt =====
-- `Cia408Register` (canopen_408_driver/include/canopen_408_driver/hydraulic_axis.hpp): 0x6040,
-- 0x6041, 0x6300, 0x6301, 0x6310, 0x3468 and 0x1010.
use ros2_canopen.Base.{ℕ}

abbrev pub controlword : ℕ
controlword = 24640

abbrev pub statusword : ℕ
statusword = 24641

abbrev pub setpoint : ℕ
setpoint = 25344

abbrev pub actual : ℕ
actual = 25345

abbrev pub demand : ℕ
demand = 25360

abbrev pub pcb_temperature : ℕ
pcb_temperature = 13416

abbrev pub store_params : ℕ
store_params = 4112
