-- ===== src/Control/System.antt =====
-- The hardware interface `CanopenSystem` (canopen_ros2_control/src/canopen_system.cpp): the nodes'
-- data, the callbacks of the drivers that fill them, what is exported, and the cycle that sends the
-- commands. The drivers are a parameter; threads, `read`, which only logs, and log lines are left out.
pub mod Laws
pub mod Exports
use ros2_canopen.Base.{
  ℕ, ◌-◌, ◌%◌, ◌==◌, Bool, true, false, if◌then◌else◌, ltb, Option, none, some, List, [], ◌∷◌, ◌++◌,
}
use ros2_canopen.Bridge.Dictionary.{CoData}
use ros2_canopen.Bridge.Boot.{CoEmcy}
use ros2_canopen.Core.Manager.{value_or}
use ros2_canopen.Nodes.Drive.{get_elem?}
use ros2_canopen.Control.Value.{Floats, Shared, Command, of_bool, is_active, prepare_write}
use ros2_canopen.Control.Node.{
  EmcyData, NmtState, NodeData, make, set_state, set_emcy, set_rpdo_data,
}

-- What `CanopenSystem` uses of the registered drivers; `tpdo_transmit` with the `catch` around it.
pub record Drivers (W : Type 0) : Type 0 where
  pub registered : ℕ → Bool
  pub reset_node_nmt_command : ℕ → W → Bool × W
  pub start_node_nmt_command : ℕ → W → Bool × W
  pub tpdo_transmit : ℕ → CoData → W → W

-- A use of `map[k]`, which makes an entry `a` where there is none; the keys ascend.
unfoldable pub at_key {ℓ} : {A : Type ℓ} → ℕ → A → (A → A) → List (ℕ × A) → List (ℕ × A)
at_key k a f [] = (k, f a) ∷ []
at_key k a f ((j, v) ∷ m) =
    if j == k
    then (j, f v) ∷ m
    else if ltb k j
    then (k, f a) ∷ ((j, v) ∷ m)
    else (j, v) ∷ at_key k a f m

abbrev pub Nodes : Type 0 → Type 0
Nodes F = List (ℕ × NodeData F)

-- The names of the interfaces that are exported for a node.
pub data CommandName : Type 0 where
  tpdo_index tpdo_subindex tpdo_value tpdo_ons nmt_reset nmt_reset_fbk nmt_start : CommandName
  nmt_start_fbk : CommandName

pub data StateName : Type 0 where
  rpdo_index rpdo_subindex rpdo_value nmt_state_name emcy_error_code emcy_error_register : StateName
  emcy_manufacturer_error_code : ℕ → StateName

-- `info_.joints[i]`, with the number in its parameter `node_id`.
pub record Joint : Type 0 where
  pub name : ℕ
  pub node_id : Option ℕ

-- An interface, with the node whose data it points to.
pub record Interface (N : Type 0) : Type 0 where
  pub joint : ℕ
  pub name : N
  pub node : ℕ

abbrev pub interfaces : {N : Type 0} → ℕ → ℕ → List N → List (Interface N)
interfaces joint node [] = []
interfaces joint node (name ∷ names) =
    record { joint = joint; name = name; node = node } ∷ interfaces joint node names

-- The loop over the joints; a joint without `node_id` is skipped, and the number is cut to a byte.
abbrev pub of_joint : {N : Type 0} → List N → ℕ → Option ℕ → List (Interface N)
of_joint names joint none = []
of_joint names joint (some id) = interfaces joint (id % 256) names

abbrev pub command_names : List CommandName
command_names =
    tpdo_index ∷ tpdo_subindex ∷ tpdo_value ∷ tpdo_ons ∷ nmt_reset ∷ nmt_reset_fbk ∷ nmt_start
    ∷ nmt_start_fbk ∷ []

abbrev pub state_names : List StateName
state_names =
    rpdo_index
    ∷ rpdo_subindex
    ∷ rpdo_value
    ∷ nmt_state_name
    ∷ emcy_error_code
    ∷ emcy_error_register
    ∷ emcy_manufacturer_error_code 1
    ∷ emcy_manufacturer_error_code 2
    ∷ emcy_manufacturer_error_code 3
    ∷ emcy_manufacturer_error_code 4
    ∷ emcy_manufacturer_error_code 5
    ∷ []

unfoldable pub export_state_interfaces : List Joint → List (Interface StateName)
export_state_interfaces [] = []
export_state_interfaces (j ∷ joints) =
    of_joint state_names j.name j.node_id ++ export_state_interfaces joints

unfoldable pub export_command_interfaces : List Joint → List (Interface CommandName)
export_command_interfaces [] = []
export_command_interfaces (j ∷ joints) =
    of_joint command_names j.name j.node_id ++ export_command_interfaces joints

module _ {F : Type 0} where
  -- The double that a command interface points to.
  abbrev pub command_of : CommandName → NodeData F → F
  command_of tpdo_index n = n.tpdo_data.shared.index
  command_of tpdo_subindex n = n.tpdo_data.shared.subindex
  command_of tpdo_value n = n.tpdo_data.shared.value
  command_of tpdo_ons n = n.tpdo_data.one_shot
  command_of nmt_reset n = n.nmt_state.reset_ons
  command_of nmt_reset_fbk n = n.nmt_state.reset_fbk
  command_of nmt_start n = n.nmt_state.start_ons
  command_of nmt_start_fbk n = n.nmt_state.start_fbk

  abbrev pub put_command : CommandName → F → NodeData F → NodeData F
  put_command tpdo_index x n = record n {
    tpdo_data = record n.tpdo_data { shared = record n.tpdo_data.shared { index = x } };
  }
  put_command tpdo_subindex x n = record n {
    tpdo_data = record n.tpdo_data { shared = record n.tpdo_data.shared { subindex = x } };
  }
  put_command tpdo_value x n = record n {
    tpdo_data = record n.tpdo_data { shared = record n.tpdo_data.shared { value = x } };
  }
  put_command tpdo_ons x n = record n { tpdo_data = record n.tpdo_data { one_shot = x } }
  put_command nmt_reset x n = record n { nmt_state = record n.nmt_state { reset_ons = x } }
  put_command nmt_reset_fbk x n = record n { nmt_state = record n.nmt_state { reset_fbk = x } }
  put_command nmt_start x n = record n { nmt_state = record n.nmt_state { start_ons = x } }
  put_command nmt_start_fbk x n = record n { nmt_state = record n.nmt_state { start_fbk = x } }

module _ {F : Type 0} (floats : Floats F) where
  -- The double that a state interface points to.
  abbrev pub state_of : StateName → NodeData F → F
  state_of rpdo_index n = n.rpdo_data.index
  state_of rpdo_subindex n = n.rpdo_data.subindex
  state_of rpdo_value n = n.rpdo_data.value
  state_of nmt_state_name n = n.nmt_state.state
  state_of emcy_error_code n = n.emcy_data.error_code
  state_of emcy_error_register n = n.emcy_data.error_register
  state_of (emcy_manufacturer_error_code k) n =
      value_or floats.quiet_nan (get_elem? n.emcy_data.manufacturer_error_codes (k - 1))

  -- `initDeviceContainer`, for the registered drivers.
  unfoldable pub init_device_container : List ℕ → Nodes F → Nodes F
  unfolding at_key
  init_device_container [] m = m
  init_device_container (id ∷ ids) m =
      init_device_container ids (at_key id (make floats) (λ n. n) m)

  -- The callbacks.
  unfoldable pub nmt_state_cb : ℕ → ℕ → Nodes F → Nodes F
  unfolding at_key
  nmt_state_cb state id m =
      at_key id (make floats) (λ n. record n { nmt_state = set_state floats state n.nmt_state }) m

  unfoldable pub rpdo_cb : CoData → ℕ → Nodes F → Nodes F
  unfolding at_key set_rpdo_data
  rpdo_cb d id m = at_key id (make floats) (set_rpdo_data floats d) m

  unfoldable pub emcy_cb : ℕ → CoEmcy → ℕ → Nodes F → Nodes F
  unfolding at_key set_emcy
  emcy_cb behind e id m =
      at_key id (make floats) (λ n. record n { emcy_data = set_emcy floats behind e n.emcy_data }) m

  module _ {W : Type 0} (drivers : Drivers W) where
    -- The command is taken, and answered if there was one.
    unfoldable pub write_reset : ℕ → NodeData F × W → NodeData F × W
    write_reset id (n, w) =
        let commanded = is_active floats n.nmt_state.reset_ons in
        let (ok, w') = drivers.reset_node_nmt_command id w in
        (
          record n {
            nmt_state = record n.nmt_state {
              reset_ons = floats.quiet_nan;
              reset_fbk = if commanded then of_bool floats ok else n.nmt_state.reset_fbk;
            };
          },
          if commanded then w' else w,
        )

    unfoldable pub write_start : ℕ → NodeData F × W → NodeData F × W
    write_start id (n, w) =
        let commanded = is_active floats n.nmt_state.start_ons in
        let (ok, w') = drivers.start_node_nmt_command id w in
        (
          record n {
            nmt_state = record n.nmt_state {
              start_ons = floats.quiet_nan;
              start_fbk = if commanded then of_bool floats ok else n.nmt_state.start_fbk;
            };
          },
          if commanded then w' else w,
        )

    unfoldable pub write_tpdo : ℕ → NodeData F × W → NodeData F × W
    unfolding prepare_write
    write_tpdo id (n, w) =
        let commanded = is_active floats n.tpdo_data.one_shot in
        let s = prepare_write floats n.tpdo_data.shared in
        (
          record n {
            tpdo_data = record {
              shared = if commanded then s else n.tpdo_data.shared;
              one_shot = floats.quiet_nan;
            };
          },
          if commanded then drivers.tpdo_transmit id s.original_data w else w,
        )

    unfoldable pub write_node : ℕ → NodeData F × W → NodeData F × W
    unfolding write_reset write_start write_tpdo
    write_node id s =
        if drivers.registered id then write_tpdo id (write_start id (write_reset id s)) else s

    unfoldable pub write : Nodes F → W → Nodes F × W
    unfolding write_node
    write [] w = ([], w)
    write ((id, n) ∷ m) w =
        let (n', w') = write_node id (n, w) in let (m', w'') = write m w' in ((id, n') ∷ m', w'')
