-- ===== src/Control/Robot.antt =====
-- The hardware interface `RobotSystem` with its joints, `Cia402Data`
-- (canopen_ros2_control/src/robot_system.cpp,
-- canopen_ros2_control/include/canopen_ros2_control/cia402_data.hpp). The drivers are a parameter; a
-- result `none` is a call on the null pointer of a joint without a driver. All calls are for the
-- channel 0, the default argument. The reading of the hardware's parameters, threads and log lines
-- are left out.
pub mod Laws
pub mod Modes
use ros2_canopen.Base.{
  ℕ, ◌%◌, ◌==◌, ◌&&◌, ◌||◌, not, ltb, length, Bool, true, false, if◌then◌else◌, Option, none, some,
  List, [], ◌∷◌, ◌++◌, is_some,
}
use ros2_canopen.Core.Manager.{value_or}
use ros2_canopen.Nodes.Drive.{
  profiled_position, profiled_velocity, interpolated_position, cyclic_synchronous_position,
  cyclic_synchronous_velocity,
}
use ros2_canopen.Control.System.{Drivers}
use ros2_canopen.Control.Drives.{MotorDrivers, profiled_torque}

pub data Kind : Type 0 where
  position velocity effort : Kind

abbrev pub same_kind : Kind → Kind → Bool
same_kind position position = true
same_kind velocity velocity = true
same_kind effort effort = true
same_kind _ _ = false

-- `joint_name + "/" + kind`
abbrev pub Name : Type 0
Name = ℕ × Kind

abbrev pub same_name : Name → Name → Bool
same_name (i, j) (k, l) = (i == k) && same_kind j l

-- `Cia402Data`. `command_interface_to_operation_mode` has at most the three keys of the joint.
pub record Joint (F : Type 0) : Type 0 where
  pub node_id : ℕ
  pub channel : ℕ
  pub joint_name : ℕ
  pub has_driver : Bool
  pub operation_mode : Kind → Option ℕ
  pub interfaces : List Name
  pub interfaces_to_start : List Name
  pub interfaces_to_running : List Name
  pub interfaces_to_stop : List Name
  pub actual_position : F
  pub actual_velocity : F
  pub actual_effort : F
  pub target_position : F
  pub target_velocity : F
  pub target_torque : F

-- The entries of the device in the bus configuration.
pub record Config : Type 0 where
  pub node_id : Option ℕ
  pub channel : Option ℕ
  pub operation_mode : Kind → Option ℕ

abbrev pub cyclic_synchronous_torque : ℕ
cyclic_synchronous_torque = 10

-- `std::find`
unfoldable pub has_name : Name → List Name → Bool
has_name name [] = false
has_name name (x ∷ xs) = same_name x name || has_name name xs

module _ {F : Type 0} where
  abbrev pub take_config : Option ℕ → Config → Joint F → Bool × Joint F
  take_config none c s = (false, s)
  take_config (some id) c s = (
    true,
    record s {
      node_id = id % 256;
      channel = value_or s.channel c.channel;
      operation_mode = c.operation_mode;
    },
  )

  unfoldable pub init_data : ℕ → Config → Joint F → Bool × Joint F
  init_data name c s = take_config c.node_id c (record s { joint_name = name })

  -- An interface is exported where it has a mode.
  abbrev pub export_one : Kind → Joint F → Joint F
  export_one k s = record s {
    interfaces =
        if is_some (s.operation_mode k)
        then s.interfaces ++ ((s.joint_name, k) ∷ [])
        else s.interfaces;
  }

  unfoldable pub export_command_interface : Joint F → Joint F
  export_command_interface s = export_one effort (export_one velocity (export_one position s))

  -- The switch of `write_target`.
  unfoldable pub target_of : ℕ → Joint F → Option F
  target_of mode s =
      if (mode == profiled_position)
        || ((mode == cyclic_synchronous_position) || (mode == interpolated_position))
      then some s.target_position
      else if (mode == profiled_velocity) || (mode == cyclic_synchronous_velocity)
      then some s.target_velocity
      else if (mode == profiled_torque) || (mode == cyclic_synchronous_torque)
      then some s.target_torque
      else none

  -- `command_interface_to_operation_mode[interface]`, which is `No_Mode` for a name that is not there.
  abbrev pub mode_for : Name → Joint F → ℕ
  mode_for (joint, k) s = if joint == s.joint_name then value_or 0 (s.operation_mode k) else 0

  abbrev pub add_start : Name → Joint F → Joint F
  add_start name s = record s { interfaces_to_start = s.interfaces_to_start ++ (name ∷ []) }

  abbrev pub add_stop : Name → Joint F → Joint F
  add_stop name s = record s { interfaces_to_stop = s.interfaces_to_stop ++ (name ∷ []) }

  -- A change of the first joint that has the interface.
  unfoldable pub at_owner : (Name → Joint F → Joint F) → Name → List (Joint F) → List (Joint F)
  unfolding has_name
  at_owner f name [] = []
  at_owner f name (s ∷ joints) =
      if has_name name s.interfaces then f name s ∷ joints else s ∷ at_owner f name joints

  unfoldable pub register : (Name → Joint F → Joint F) → List Name → List (Joint F) → List (Joint F)
  unfolding at_owner
  register f [] joints = joints
  register f (name ∷ names) joints = register f names (at_owner f name joints)

  module _ {W : Type 0} (drivers : MotorDrivers F W) where
    abbrev pub send : ℕ → Option F → W → W
    send id none w = w
    send id (some x) w = drivers.set_target id 0 x w

    unfoldable pub write_target : Joint F → W → Option W
    unfolding target_of
    write_target s w =
        if s.has_driver
        then some (send s.node_id (target_of (drivers.get_mode s.node_id 0 w) s) w)
        else none

    unfoldable pub read_state : Joint F → W → Option (Joint F)
    read_state s w =
        if s.has_driver
        then some (record s {
          actual_position = drivers.get_position s.node_id 0 w;
          actual_velocity = drivers.get_speed s.node_id 0 w;
          actual_effort = drivers.get_effort s.node_id 0 w;
        })
        else none

    -- One interface to start; the driver is there for a joint that was given one.
    abbrev pub switch_to : Name → Joint F → W → Bool × Joint F × W
    switch_to name s w =
        let (ok, w') = drivers.set_operation_mode s.node_id (mode_for name s) 0 w in
        (
          ok,
          record s {
            interfaces_to_running = name ∷ [];
            interfaces_to_stop = [];
            interfaces_to_start = [];
          },
          w',
        )

    abbrev pub switch_by : List Name → Joint F → W → Bool × Joint F × W
    switch_by [] s w = (true, s, w)
    switch_by (name ∷ []) s w = switch_to name s w
    switch_by (name ∷ other ∷ names) s w = (false, s, w)

    unfoldable pub perform_switch : Joint F → W → Bool × Joint F × W
    perform_switch s w = switch_by s.interfaces_to_start s w

    -- The loop ends at the first joint that fails.
    unfoldable pub perform_switches : List (Joint F) → W → Bool × List (Joint F) × W
    unfolding perform_switch
    perform_switches [] w = (true, [], w)
    perform_switches (s ∷ joints) w =
        let (ok, s', w') = perform_switch s w in
        let (ok', joints', w'') = perform_switches joints w' in
        if ok then (ok', s' ∷ joints', w'') else (false, s' ∷ joints, w')

    unfoldable pub perform_command_mode_switch :
        List Name → List Name → List (Joint F) → W → Bool × List (Joint F) × W
    unfolding register perform_switches
    perform_command_mode_switch start stop joints w =
        perform_switches (register add_stop stop (register add_start start joints)) w

    -- The loops of `on_activate` and `on_deactivate`, with `init_motor` and `halt_motor`.
    unfoldable pub for_motors : (ℕ → ℕ → W → Bool × W) → List (Joint F) → W → Option (Bool × W)
    for_motors call [] w = some (true, w)
    for_motors call (s ∷ joints) w =
        let (ok, w') = call s.node_id 0 w in
        let rest = for_motors call joints w' in
        if s.has_driver then (if ok then rest else some (false, w')) else none

    unfoldable pub on_activate : List (Joint F) → W → Option (Bool × W)
    unfolding for_motors
    on_activate joints w = for_motors drivers.init_motor joints w

    unfoldable pub on_deactivate : List (Joint F) → W → Option (Bool × W)
    unfolding for_motors
    on_deactivate joints w = for_motors drivers.halt_motor joints w
