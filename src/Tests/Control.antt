-- ===== src/Tests/Control.antt =====
-- The interfaces of ros2_control with one drive, node 5, on doubles that are whole numbers or NaN
-- (canopen_ros2_control, canopen_ros2_controllers).
use ros2_canopen.Base.{
  ◌≡◌, inl, inr, refl, arith, Bool, true, false, not, ◌==◌, Option, none, some, List, [], ◌∷◌,
}
use ros2_canopen.Base.Int.{ℤ, pos, negsuc, ◌==ℤ◌}
use ros2_canopen.Bridge.Dictionary.{CoData}
use ros2_canopen.Nodes.Proxy.{NmtState, start, rpdo}
use ros2_canopen.Control.Value.{
  Floats, IsFloats, Shared, int16_t, int32_t, of_nat, prepare_read, prepare_write, word_with,
  value_of,
}
use ros2_canopen.Control.Value.Laws.{prepare_read-prepare_write}
use ros2_canopen.Control.Node.{make, set_rpdo_data}
use ros2_canopen.Control.System.{Drivers, write_node, put_command, nmt_reset}
use ros2_canopen.Control.Drives
use ros2_canopen.Control.Drives.{Trigger, MotorData, MotorDrivers, Motors, write_nmt}
use ros2_canopen.Control.Robot.{Joint, has_name, position, velocity, perform_command_mode_switch}
use ros2_canopen.Control.Robot.Laws.{
  IsClogged, IsShared, AsksTwo, perform_command_mode_switch-IsClogged,
}
use ros2_canopen.Control.Proxy
use ros2_canopen.Control.Proxy.{
  Access, on_command, update, rpdo_messages, on_nmt_state_reset, on_nmt_state_start,
}
use ros2_canopen.Control.Proxy.Laws.{write_node-update, rpdo_messages-set_rpdo_data}
use ros2_canopen.Control.Proxy.Loop.{
  response, repeat, reset_taken, start_taken, start_answered, services_respond, services_unanswered,
}

abbrev is_none : Option ℤ → Bool
is_none none = true
is_none (some z) = false

abbrev whole_part : Option ℤ → ℤ
whole_part none = pos 0
whole_part (some z) = z

abbrev is_true : Option ℤ → Bool
is_true none = true
is_true (some z) = not (z ==ℤ pos 0)

abbrev whole : Floats (Option ℤ)
whole = record {
  quiet_nan = none;
  is_nan = is_none;
  of_int = λ z. some z;
  cast = λ lo hi x. whole_part x;
  truth = is_true;
}

whole-IsFloats : IsFloats whole
whole-IsFloats = (refl, λ z. refl, λ lo hi z l h s. refl, λ z. refl)

abbrev old_data : CoData
old_data = record { index = 1; subindex = 2; word = 70000 }

negative_current :
    let s : Shared (Option ℤ) = record {
      original_data = old_data;
      index = of_nat whole 0x6071;
      subindex = of_nat whole 0;
      value = some (negsuc 4);
      co_type = int16_t;
    } in
    prepare_read whole (prepare_write whole s) ≡ record s {
      original_data = record {
        index = 0x6071;
        subindex = 0;
        word = word_with whole int16_t 70000 (some (negsuc 4));
      };
    }
negative_current =
    prepare_read-prepare_write whole whole-IsFloats old_data 0x6071 0 (negsuc 4) int16_t
      (omega arith) (omega arith) (omega arith) (omega arith)

-- A bus that is the list of what was sent.
abbrev bus_drivers : Drivers (List CoData)
bus_drivers = record {
  registered = λ id. id == 5;
  reset_node_nmt_command = λ id w. (true, w);
  start_node_nmt_command = λ id w. (true, w);
  tpdo_transmit = λ id d w. d ∷ w;
}

abbrev drives : MotorDrivers (Option ℤ) (List CoData)
drives = record {
  nodes = bus_drivers;
  init_motor = λ id channel w. (true, w);
  halt_motor = λ id channel w. (true, w);
  recover_motor = λ id channel w. (false, w);
  set_operation_mode = λ id mode channel w. (true, w);
  get_mode = λ id channel w. 1;
  set_target = λ id channel x w. record { index = 0x607A; subindex = 0; word = 3 } ∷ w;
  get_position = λ id channel w. some (pos 0);
  get_speed = λ id channel w. some (pos 0);
  get_effort = λ id channel w. some (pos 0);
}

abbrev idle_trigger : Trigger (Option ℤ)
idle_trigger = record { ons_cmd = none; resp = none }

abbrev commanded : Trigger (Option ℤ)
commanded = record { ons_cmd = some (pos 1); resp = none }

abbrev motor : MotorData (Option ℤ)
motor = record {
  actual_position = none;
  actual_speed = none;
  actual_effort = none;
  init = commanded;
  halt = idle_trigger;
  recover = idle_trigger;
  position_mode = commanded;
  velocity_mode = idle_trigger;
  cyclic_velocity_mode = idle_trigger;
  cyclic_position_mode = idle_trigger;
  torque_mode = idle_trigger;
  interpolated_position_mode = idle_trigger;
  position_value = some (pos 3);
  velocity_value = some (pos 4);
  torque_value = some (pos 6);
}

abbrev answered_motor : MotorData (Option ℤ)
answered_motor = record motor {
  init = record { ons_cmd = none; resp = some (pos 1) };
  position_mode = record { ons_cmd = none; resp = some (pos 1) };
}

abbrev position_sent : CoData
position_sent = record { index = 0x607A; subindex = 0; word = 3 }

abbrev joint : Joint (Option ℤ)
joint = record {
  node_id = 5;
  channel = 0;
  joint_name = 1;
  has_driver = true;
  operation_mode = λ kind. some 1;
  interfaces = (1, position) ∷ (1, velocity) ∷ [];
  interfaces_to_start = [];
  interfaces_to_running = [];
  interfaces_to_stop = [];
  actual_position = none;
  actual_velocity = none;
  actual_effort = none;
  target_position = some (pos 3);
  target_velocity = some (pos 4);
  target_torque = some (pos 6);
}

abbrev both_requested : Joint (Option ℤ)
both_requested = record joint { interfaces_to_start = (1, position) ∷ (1, velocity) ∷ [] }

two_interfaces :
    perform_command_mode_switch drives ((1, position) ∷ (1, velocity) ∷ []) [] (joint ∷ []) []
    ≡ (false, both_requested ∷ [], [])
unfolding perform_command_mode_switch
two_interfaces = refl

asks_two : AsksTwo ((1, position) ∷ (1, velocity) ∷ []) (joint ∷ [])
unfolding AsksTwo IsShared has_name
asks_two = inl (refl, refl)

both_requested-IsClogged : IsClogged (both_requested ∷ [])
unfolding IsClogged
both_requested-IsClogged = inl (omega arith)

after_two_requests :
    let (ok, joints', w') =
      perform_command_mode_switch drives ((1, position) ∷ (1, velocity) ∷ []) [] (joint ∷ []) [] in
    (ok ≡ false) × IsClogged joints'
after_two_requests =
    perform_command_mode_switch-IsClogged drives ((1, position) ∷ (1, velocity) ∷ []) []
      (joint ∷ []) [] (inr asks_two)

abbrev all_open : Access
all_open = record {
  readable = λ name. true;
  writable = λ name. true;
  nmt_published = true;
  rpdo_published = true;
}

abbrev target_position : CoData
target_position = record { index = 0x607A; subindex = 0; word = 5000 }

abbrev no_data_sent : List CoData
no_data_sent = []

abbrev as_start : ℤ → NmtState
as_start z = start

target_sent :
    let (c', n', messages) =
      update whole as_start all_open (on_command target_position Proxy.make) (make whole) in
    let (n'', w') = write_node whole bus_drivers 5 (n', []) in
    (w' ≡ target_position ∷ []) × (n''.tpdo_data.one_shot ≡ none) × (c'.input_cmd ≡ none)
target_sent =
    write_node-update whole whole-IsFloats bus_drivers as_start 5 target_position all_open
      Proxy.make (make whole) [] refl (λ name. refl) refl refl refl (omega arith) (omega arith)
      (omega arith) (omega arith)

position_published :
    rpdo_messages whole all_open (set_rpdo_data whole target_position (make whole))
    ≡ rpdo target_position ∷ []
position_published =
    rpdo_messages-set_rpdo_data whole whole-IsFloats target_position all_open (make whole) refl refl
      refl refl refl (omega arith) (omega arith) (omega arith)

both_respond :
    (response (on_nmt_state_reset whole (write_node whole bus_drivers 5 ∷ []) (make whole, []))
      ≡ some true)
    × (response (on_nmt_state_start whole (write_node whole bus_drivers 5 ∷ []) (make whole, []))
        ≡ some true)
    × (response (
          on_nmt_state_start whole
            (start_taken whole whole-IsFloats bus_drivers
              ∷ start_answered whole whole-IsFloats bus_drivers 5
              ∷ [])
            (make whole, []))
        ≡ some true)
    × (response (
          on_nmt_state_reset whole
            (reset_taken whole whole-IsFloats bus_drivers ∷ [])
            (make whole, []))
        ≡ some false)
both_respond =
    services_respond whole whole-IsFloats bus_drivers 5 (make whole) [] refl refl refl refl

none_answered :
    (response (on_nmt_state_start whole (repeat 3 (write_nmt whole drives 5)) (make whole, []))
      ≡ none)
    × (response (on_nmt_state_reset whole (write_nmt whole drives 5 ∷ []) (make whole, []))
        ≡ some false)
none_answered = services_unanswered whole whole-IsFloats drives 5 3 (make whole) [] refl refl

-- While the cycle has taken the reset but not yet answered it, the service already sees the command
-- set back, and responds false.
reset_overtaken :
    response (
      on_nmt_state_reset whole
        ((λ s. (put_command nmt_reset none s.0, s.1)) ∷ [])
        (make whole, no_data_sent))
    ≡ some false
unfolding on_nmt_state_reset
reset_overtaken = refl

-- A value that is negative as an `int32_t` is not published as it came.
negative_word : value_of int32_t 4294967295 ≡ negsuc 0
unfolding value_of
negative_word = refl
