-- ===== src/Devices/Valve.antt =====
-- The node around the valve: `NodeCanopen408Driver`
-- (canopen_408_driver/include/canopen_408_driver/node_interfaces/node_canopen_408_driver_impl.hpp),
-- over the axis of Valve408. The doubles and their rounding are a parameter; the emergency's text, the
-- creation of services and log lines are left out.
pub mod Laws
use ros2_canopen.Base.{
  ℕ, ◌==◌, Bool, true, false, if◌then◌else◌, Option, none, some, List, [], ◌∷◌, ◌++◌,
}
use ros2_canopen.Base.Int.{ℤ, pos, pattern_of, signed}
use ros2_canopen.Core.Manager.{value_or}
use ros2_canopen.Valve408
use ros2_canopen.Valve408.{Axis, Bridge, setpoint_float, get_spool_position, get_statusword}

-- `double`: `lround((x - offset) * scale)`, and `static_cast<double>(n) * scale + offset`.
pub record Floats (F : Type 0) : Type 0 where
  pub to_raw : F → F → F → ℤ
  pub from_raw : F → F → ℤ → F
  pub nought : F

pub record Node (F D : Type 0) : Type 0 where
  pub axis : Option (Axis D)
  pub scale_to_dev : F
  pub scale_from_dev : F
  pub offset : F
  pub float_setpoint_raw : ℤ

-- The entries of the configuration, none where one is missing or cannot be converted.
pub record Options (F : Type 0) : Type 0 where
  pub scale_target_to_dev : Option F
  pub scale_actual_from_dev : Option F
  pub offset : Option F
  pub float_setpoint_raw : Option ℤ

-- `static_cast<int16_t>`
abbrev pub int16 : ℤ → ℤ
int16 z = signed 32768 65536 (pattern_of 65536 z)

abbrev pub int16_of : ℤ → Option ℤ → ℤ
int16_of fallback none = fallback
int16_of fallback (some z) = int16 z

unfoldable pub configure : {F D : Type 0} → Options F → Node F D → Node F D
configure o s = record s {
  scale_to_dev = value_or s.scale_to_dev o.scale_target_to_dev;
  scale_from_dev = value_or s.scale_from_dev o.scale_actual_from_dev;
  offset = value_or s.offset o.offset;
  float_setpoint_raw = int16_of s.float_setpoint_raw o.float_setpoint_raw;
}

-- The services without an argument.
pub data Service : Type 0 where
  enable disable hold recover float save : Service

-- The messages of a cycle.
pub data Message (F : Type 0) : Type 0 where
  spool_position : F → Message F
  status_word : ℤ → Message F

-- `PVED` severity, by the byte `msef[4]`.
pub data Severity : Type 0 where
  info warning critical severe unknown : Severity

unfoldable pub pved_severity_name : ℕ → Severity
pved_severity_name severity =
    if severity == 0x00
    then info
    else if severity == 0x10
    then warning
    else if severity == 0x20
    then critical
    else if severity == 0x30
    then severe
    else unknown

abbrev pub disabled : {D : Type 0} → Option (Axis D) → Option (Axis D)
disabled none = none
disabled (some a) = some (Valve408.disable a)

module _ {D : Type 0} (bridge : Bridge D) where
  -- `enable`, `disable`, `hold` and `recover` always give true.
  abbrev pub serve_axis : Service → ℤ → Axis D → Bool × Axis D
  serve_axis enable raw a = (true, Valve408.enable a)
  serve_axis disable raw a = (true, Valve408.disable a)
  serve_axis hold raw a = (true, Valve408.hold_axis a)
  serve_axis recover raw a = (true, Valve408.recover a)
  serve_axis float raw a = Valve408.set_setpoint bridge raw a
  serve_axis save raw a = Valve408.save_to_eeprom bridge a

module _ {F D : Type 0} where
  abbrev pub with_axis : Axis D → Node F D → Node F D
  with_axis a s = record s { axis = some a }

  -- `add_to_master` makes the axis, and a task of the executor drops it after `deactivate`.
  abbrev pub make_axis : Option D → Node F D → Node F D
  make_axis driver s = with_axis (Valve408.make driver) s

  unfoldable pub deactivate : Node F D → Node F D
  unfolding Valve408.disable
  deactivate s = record s { axis = disabled s.axis }

  abbrev pub drop_axis : Node F D → Node F D
  drop_axis s = record s { axis = none }

  module _ (bridge : Bridge D) where
    abbrev pub on_axis : (Axis D → Bool × Axis D) → Option (Axis D) → Node F D → Bool × Node F D
    on_axis f none s = (false, s)
    on_axis f (some a) s = let (ok, a') = f a in (ok, with_axis a' s)

    unfoldable pub serve : Service → Node F D → Bool × Node F D
    unfolding Valve408.enable Valve408.disable Valve408.hold_axis Valve408.recover
        Valve408.set_setpoint Valve408.save_to_eeprom
    serve service s = on_axis (serve_axis bridge service s.float_setpoint_raw) s.axis s

    module _ (floats : Floats F) where
      unfoldable pub set_position : F → Node F D → Bool × Node F D
      unfolding Valve408.set_setpoint
      set_position percent s =
          on_axis
            (Valve408.set_setpoint bridge (int16 (floats.to_raw percent s.offset s.scale_to_dev)))
            s.axis s

      -- `publish`
      -- What is published ends at a read that throws.
      abbrev pub spool_then : Option ℤ → List (Message F) → Node F D → List (Message F)
      spool_then none rest s = []
      spool_then (some raw) rest s =
          spool_position (floats.from_raw s.scale_from_dev s.offset raw) ∷ rest

      abbrev pub status_messages : Option ℤ → List (Message F)
      status_messages none = []
      status_messages (some word) = status_word word ∷ []

      abbrev pub messages : Option (Axis D) → Node F D → List (Message F)
      messages none s = []
      messages (some a) s =
          spool_then (get_spool_position bridge a) (status_messages (get_statusword bridge a)) s

      -- Nothing is published where the axis' cycle ends by an exception.
      abbrev pub polled : Option (Axis D) → Node F D → Node F D × List (Message F)
      polled none s = (s, [])
      polled (some a) s =
          let (ok, a') = Valve408.spin_once bridge a in
          (with_axis a' s, if ok then messages (some a') s else [])

      -- The axis' part of `poll_timer_callback`.
      unfoldable pub poll_timer_callback : Node F D → Node F D × List (Message F)
      unfolding Valve408.spin_once
      poll_timer_callback s = polled s.axis s
