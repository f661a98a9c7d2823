-- ===== src/Control/Drives/Once.antt =====
-- Which calls a cycle of `Cia402System` makes (canopen_ros2_control/src/cia402_system.cpp).
use ros2_canopen.Base.{ℕ, ◌≡◌, if◌then◌else◌, Option, none, some, List, [], ◌∷◌}
use Prim.{Unit}
use ros2_canopen.Bridge.Dictionary.{CoData}
use ros2_canopen.Nodes.Drive.{
  profiled_position, profiled_velocity, interpolated_position, cyclic_synchronous_position,
  cyclic_synchronous_velocity,
}
use ros2_canopen.Control.Value.{Floats, is_active, prepare_write}
use ros2_canopen.Control.Node.{NodeData}
use ros2_canopen.Control.System.{Nodes}
use ros2_canopen.Control.Drives.{MotorData, MotorDrivers, Motors, profiled_torque, send_target}

-- What a driver is asked to do; the data are those that are sent.
pub data Asked : Type 0 where
  reset_node start_node init_motor halt_motor recover_motor : Asked
  transmit : CoData → Asked
  set_mode : ℕ → Asked

module _ {F W : Type 0} (floats : Floats F) (drivers : MotorDrivers F W) where
  abbrev pub ask : ℕ → ℕ → Asked → W → W
  ask id channel reset_node w = (drivers.nodes.reset_node_nmt_command id w).1
  ask id channel start_node w = (drivers.nodes.start_node_nmt_command id w).1
  ask id channel init_motor w = (drivers.init_motor id channel w).1
  ask id channel halt_motor w = (drivers.halt_motor id channel w).1
  ask id channel recover_motor w = (drivers.recover_motor id channel w).1
  ask id channel (transmit d) w = drivers.nodes.tpdo_transmit id d w
  ask id channel (set_mode k) w = (drivers.set_operation_mode id k channel w).1

  unfoldable pub ask_all : ℕ → ℕ → List Asked → W → W
  ask_all id channel [] w = w
  ask_all id channel (c ∷ cs) w = ask_all id channel cs (ask id channel c w)

  -- The commands that are active, in their order.
  unfoldable pub active : List (F × Asked) → List Asked
  active [] = []
  active ((x, c) ∷ cs) = let rest = active cs in if is_active floats x then c ∷ rest else rest

  abbrev pub node_commands : NodeData F → List (F × Asked)
  node_commands n =
      (n.nmt_state.reset_ons, reset_node)
      ∷ (n.nmt_state.start_ons, start_node)
      ∷ (n.tpdo_data.one_shot, transmit (prepare_write floats n.tpdo_data.shared).original_data)
      ∷ []

  abbrev pub motor_commands : MotorData F → List (F × Asked)
  motor_commands d =
      (d.init.ons_cmd, init_motor)
      ∷ (d.halt.ons_cmd, halt_motor)
      ∷ (d.recover.ons_cmd, recover_motor)
      ∷ (d.position_mode.ons_cmd, set_mode profiled_position)
      ∷ (d.cyclic_position_mode.ons_cmd, set_mode cyclic_synchronous_position)
      ∷ (d.velocity_mode.ons_cmd, set_mode profiled_velocity)
      ∷ (d.cyclic_velocity_mode.ons_cmd, set_mode cyclic_synchronous_velocity)
      ∷ (d.torque_mode.ons_cmd, set_mode profiled_torque)
      ∷ (d.interpolated_position_mode.ons_cmd, set_mode interpolated_position)
      ∷ []

  -- The calls for all nodes, and for all motors, each with its target.
  unfoldable pub ask_nodes : Nodes F → W → W
  ask_nodes [] w = w
  ask_nodes ((id, n) ∷ m) w = ask_nodes m (ask_all id 0 (active (node_commands n)) w)

  unfoldable pub ask_motors : Motors F → W → W
  ask_motors [] w = w
  ask_motors (((id, channel), d) ∷ m) w =
      ask_motors m
        (send_target floats drivers id channel d (ask_all id channel (active (motor_commands d)) w))

  -- The active commands, one after the other.
  unfoldable run_active : ℕ → ℕ → List (F × Asked) → W → W
  run_active id channel [] w = w
  run_active id channel ((x, c) ∷ cs) w =
      run_active id channel cs (if is_active floats x then ask id channel c w else w)

  -- The world that a part of the cycle leaves, where it comes to its end.
  abbrev Leaves : {A : Type 0} → W → Option (A × W) → Type 0
  Leaves v none = Unit
  Leaves v (some (a, w)) = w ≡ v

  abbrev AllLeave : W → Option (Nodes F × Motors F × W) → Type 0
  AllLeave v none = Unit
  AllLeave v (some (nodes, motors, w)) = w ≡ v
