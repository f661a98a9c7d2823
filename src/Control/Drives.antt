-- ===== src/Control/Drives.antt =====
-- The hardware interface `Cia402System` (canopen_ros2_control/src/cia402_system.cpp,
-- canopen_ros2_control/include/canopen_ros2_control/cia402_system.hpp), over that of Control.System.
-- The drivers are a parameter; a result `none` is a call on the null pointer, which `drivers[id]`
-- gives for a node without a driver. The drivers' calls are taken to return: an exception of one, which
-- the cycle does not catch, is not followed. Threads, the exports and log lines are left out.
pub mod Laws
pub mod Once
use ros2_canopen.Base.{
  ℕ, ◌==◌, ◌||◌, not, Bool, true, false, if◌then◌else◌, Option, none, some, List, [], ◌∷◌,
}
use ros2_canopen.Bridge.Dictionary.{CoData}
use ros2_canopen.Nodes.Drive.{
  profiled_position, profiled_velocity, interpolated_position, cyclic_synchronous_position,
  cyclic_synchronous_velocity,
}
use ros2_canopen.Control.Value.{Floats, of_bool, is_active, set_data, prepare_write}
use ros2_canopen.Control.Node.{NodeData, make}
use ros2_canopen.Control.System.{Drivers, Nodes, at_key}

-- `MotorTriggerCommand`
pub record Trigger (F : Type 0) : Type 0 where
  pub ons_cmd : F
  pub resp : F

-- `MotorNodeData`, with the values of `MotorTarget`.
pub record MotorData (F : Type 0) : Type 0 where
  pub actual_position : F
  pub actual_speed : F
  pub actual_effort : F
  pub init : Trigger F
  pub halt : Trigger F
  pub recover : Trigger F
  pub position_mode : Trigger F
  pub velocity_mode : Trigger F
  pub cyclic_velocity_mode : Trigger F
  pub cyclic_position_mode : Trigger F
  pub torque_mode : Trigger F
  pub interpolated_position_mode : Trigger F
  pub position_value : F
  pub velocity_value : F
  pub torque_value : F

-- What `Cia402System` uses of the drivers: a node and, where there are two numbers, its channel. Of
-- `nodes`, the calls stand here without the `catch` of `CanopenSystem`.
pub record MotorDrivers (F W : Type 0) : Type 0 where
  pub nodes : Drivers W
  pub init_motor : ℕ → ℕ → W → Bool × W
  pub halt_motor : ℕ → ℕ → W → Bool × W
  pub recover_motor : ℕ → ℕ → W → Bool × W
  pub set_operation_mode : ℕ → ℕ → ℕ → W → Bool × W
  pub get_mode : ℕ → ℕ → W → ℕ
  pub set_target : ℕ → ℕ → F → W → W
  pub get_position : ℕ → ℕ → W → F
  pub get_speed : ℕ → ℕ → W → F
  pub get_effort : ℕ → ℕ → W → F

-- `motor_data_`, each motor with its node and channel.
abbrev pub Motors : Type 0 → Type 0
Motors F = List ((ℕ × ℕ) × MotorData F)

abbrev pub profiled_torque : ℕ
profiled_torque = 4

-- The switch over the mode; none where nothing is sent.
unfoldable pub target_of : {F : Type 0} → ℕ → MotorData F → Option F
target_of mode d =
    if (mode == profiled_position)
      || ((mode == cyclic_synchronous_position) || (mode == interpolated_position))
    then some d.position_value
    else if (mode == profiled_velocity) || (mode == cyclic_synchronous_velocity)
    then some d.velocity_value
    else if mode == profiled_torque
    then some d.torque_value
    else none

module _ {F : Type 0} (floats : Floats F) where
  -- The callback for received data leaves the doubles that are exported as they are.
  unfoldable pub rpdo_cb : CoData → ℕ → Nodes F → Nodes F
  unfolding at_key
  rpdo_cb d id m =
      at_key id (make floats) (λ n. record n { rpdo_data = set_data floats d n.rpdo_data }) m

  -- `if (command.is_commanded()) command.set_response(f());`
  abbrev pub handle : {W : Type 0} → (W → Bool × W) → Trigger F × W → Trigger F × W
  handle f (t, w) =
      let commanded = is_active floats t.ons_cmd in
      let (ok, w') = f w in
      (
        record {
          ons_cmd = floats.quiet_nan;
          resp = if commanded then of_bool floats ok else t.resp;
        },
        if commanded then w' else w,
      )

  module _ {W : Type 0} (drivers : MotorDrivers F W) where
    -- The network commands and the data of a node. The results of the network commands are not kept.
    unfoldable pub write_nmt : ℕ → NodeData F × W → NodeData F × W
    unfolding prepare_write
    write_nmt id (n, w) =
        let w1 =
          if is_active floats n.nmt_state.reset_ons
          then (drivers.nodes.reset_node_nmt_command id w).1
          else w in
        let w2 =
          if is_active floats n.nmt_state.start_ons
          then (drivers.nodes.start_node_nmt_command id w1).1
          else w1 in
        let commanded = is_active floats n.tpdo_data.one_shot in
        let s = prepare_write floats n.tpdo_data.shared in
        (
          record n {
            nmt_state = record n.nmt_state {
              reset_ons = floats.quiet_nan;
              start_ons = floats.quiet_nan;
            };
            tpdo_data = record {
              shared = if commanded then s else n.tpdo_data.shared;
              one_shot = floats.quiet_nan;
            };
          },
          if commanded then drivers.nodes.tpdo_transmit id s.original_data w2 else w2,
        )

    -- The driver is called only where there is a command.
    abbrev pub is_commanded : NodeData F → Bool
    is_commanded n =
        is_active floats n.nmt_state.reset_ons
        || (is_active floats n.nmt_state.start_ons || is_active floats n.tpdo_data.one_shot)

    abbrev pub cons_node : ℕ → NodeData F → Option (Nodes F × W) → Option (Nodes F × W)
    cons_node id n none = none
    cons_node id n (some (m, w)) = some ((id, n) ∷ m, w)

    unfoldable pub write_nodes : Nodes F → W → Option (Nodes F × W)
    unfolding write_nmt
    write_nodes [] w = some ([], w)
    write_nodes ((id, n) ∷ m) w =
        let (n', w') = write_nmt id (n, w) in
        let rest = cons_node id n' (write_nodes m w') in
        if drivers.nodes.registered id || not (is_commanded n) then rest else none

    -- The trigger commands of a motor, in turn.
    unfoldable pub handle_commands : ℕ → ℕ → MotorData F × W → MotorData F × W
    handle_commands id channel (d, w) =
        let mode = λ (k : ℕ) (t : Trigger F) (v : W).
          handle (drivers.set_operation_mode id k channel) (t, v) in
        let (init, w1) = handle (drivers.init_motor id channel) (d.init, w) in
        let (halt, w2) = handle (drivers.halt_motor id channel) (d.halt, w1) in
        let (recover, w3) = handle (drivers.recover_motor id channel) (d.recover, w2) in
        let (position, w4) = mode profiled_position d.position_mode w3 in
        let (cyclic_position, w5) = mode cyclic_synchronous_position d.cyclic_position_mode w4 in
        let (velocity, w6) = mode profiled_velocity d.velocity_mode w5 in
        let (cyclic_velocity, w7) = mode cyclic_synchronous_velocity d.cyclic_velocity_mode w6 in
        let (torque, w8) = mode profiled_torque d.torque_mode w7 in
        let (interpolated, w9) = mode interpolated_position d.interpolated_position_mode w8 in
        (
          record d {
            init = init;
            halt = halt;
            recover = recover;
            position_mode = position;
            cyclic_position_mode = cyclic_position;
            velocity_mode = velocity;
            cyclic_velocity_mode = cyclic_velocity;
            torque_mode = torque;
            interpolated_position_mode = interpolated;
          },
          w9,
        )

    abbrev pub send : ℕ → ℕ → Option F → W → W
    send id channel none w = w
    send id channel (some x) w = drivers.set_target id channel x w

    unfoldable pub send_target : ℕ → ℕ → MotorData F → W → W
    unfolding target_of
    send_target id channel d w = send id channel (target_of (drivers.get_mode id channel w) d) w

    unfoldable pub write_motor : ℕ → ℕ → MotorData F × W → MotorData F × W
    unfolding handle_commands send_target
    write_motor id channel s =
        let (d, w) = handle_commands id channel s in (d, send_target id channel d w)

    abbrev pub cons_motor : ℕ × ℕ → MotorData F → Option (Motors F × W) → Option (Motors F × W)
    cons_motor key d none = none
    cons_motor key d (some (m, w)) = some ((key, d) ∷ m, w)

    -- The mode is asked for every motor.
    unfoldable pub write_motors : Motors F → W → Option (Motors F × W)
    unfolding write_motor
    write_motors [] w = some ([], w)
    write_motors (((id, channel), d) ∷ m) w =
        let (d', w') = write_motor id channel (d, w) in
        let rest = cons_motor (id, channel) d' (write_motors m w') in
        if drivers.nodes.registered id then rest else none

    abbrev pub with_nodes : Nodes F → Option (Motors F × W) → Option (Nodes F × Motors F × W)
    with_nodes nodes none = none
    with_nodes nodes (some (motors, w)) = some (nodes, motors, w)

    abbrev pub then_motors : Option (Nodes F × W) → Motors F → Option (Nodes F × Motors F × W)
    then_motors none motors = none
    then_motors (some (nodes, w)) motors = with_nodes nodes (write_motors motors w)

    unfoldable pub write : Nodes F → Motors F → W → Option (Nodes F × Motors F × W)
    unfolding write_nodes write_motors
    write nodes motors w = then_motors (write_nodes nodes w) motors

    abbrev pub cons_read : ℕ × ℕ → MotorData F → Option (Motors F) → Option (Motors F)
    cons_read key d none = none
    cons_read key d (some m) = some ((key, d) ∷ m)

    -- The motors' part of `read`.
    unfoldable pub read_motors : Motors F → W → Option (Motors F)
    read_motors [] w = some []
    read_motors (((id, channel), d) ∷ m) w =
        let d' = record d {
          actual_position = drivers.get_position id channel w;
          actual_speed = drivers.get_speed id channel w;
          actual_effort = drivers.get_effort id channel w;
        } in
        let rest = cons_read (id, channel) d' (read_motors m w) in
        if drivers.nodes.registered id then rest else none
