-- ===== src/Nodes/Master/Laws.antt =====
-- What the SDO services of the master answer.
use ros2_canopen.Base.{true, false, Option, none, some}
use ros2_canopen.Bridge.Dictionary.{CoType, low_bytes}
use ros2_canopen.Bridge.Sdo.{Answer, refused, answered}
use ros2_canopen.Nodes.Proxy.{Service, Response, blocked, responds}

abbrev pub read_expected : CoType → Option Answer → Service Response
read_expected T none = blocked
read_expected T (some refused) = responds (record { success = false; word = 0 })
read_expected T (some (answered v)) = responds (record { success = true; word = low_bytes T v })
