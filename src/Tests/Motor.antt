-- ===== src/Tests/Motor.antt =====
-- The motor of canopen_402_driver at concrete inputs.
use ros2_canopen.Base.{
  ℕ, zero, suc, ◌≡◌, ◌<◌, refl, arith, iterate, Bool, true, false, some, [], ◌∷◌,
}
use ros2_canopen.Base.Bits.{bit}
use ros2_canopen.Base.Int.{ℤ, pos}
use ros2_canopen.Cia402.Driver.{Driver}
use ros2_canopen.Cia402.State.{
  InternalState, fault, switch_on_disabled, ready_to_switch_on, operation_enable, same_state,
  wait_for_new_state,
}
use ros2_canopen.Cia402.Command.{next_state_for_enabling, set_transition}
use ros2_canopen.Cia402.Command.Table.{hops}
use ros2_canopen.Cia402.Mode.Object.{homing}
use ros2_canopen.Cia402.Motor.{Motor402, World, get_state}
use ros2_canopen.Cia402.Motor.Switch.{switch_loop, switch_state, set_target_state}
use ros2_canopen.Cia402.Motor.Switch.Laws.{switch_state_total, switch_state-Reached}
use ros2_canopen.Cia402.Motor.Switch.Enable.{Follows, switch_state-Enabled}
use ros2_canopen.Cia402.Motor.Handlers.Poll.{handle_write}
use ros2_canopen.Cia402.Motor.Handlers.Laws.{bit-handle_write}

-- A motor with the homing mode selected and running, in a given state.
abbrev motor_in : InternalState → Motor402
motor_in s = record {
  status_word = 0;
  control_word = 15;
  start_fault_reset = false;
  target_state = operation_enable;
  state_handler = record { state = s };
  modes = (6, homing (record { channel_offset = 0; execute = true; status = 0 })) ∷ [];
  mode_allocators = [];
  selected_mode = some 6;
  mode_id = 6;
  switching_state = operation_enable;
  homing_timeout_seconds = 10;
  channel_offset = 0;
}

abbrev world_in : InternalState → World ℕ
world_in s = record { motor = motor_in s; device = 0 }

abbrev no_objects : Driver ℕ
no_objects = record { get_value = λ d i s. pos 0; set_value = λ d i s v. d }

-- A drive that takes one tick for each hop towards Operation_Enable.
abbrev hop : World ℕ → World ℕ
hop w = record w {
  motor = record w.motor {
    state_handler = record { state = next_state_for_enabling w.motor.state_handler.state };
  };
}

abbrev Anything : World ℕ → Type 0
Anything w = Unit {0}

hop-Follows : Follows hop Anything 1
hop-Follows = record {
  keeps = λ cw w p. tt;
  retargets = λ s w p. tt;
  responds = λ w p t n e. (1, omega arith, λ j lt. still w j lt, refl, tt, t);
}
  where
    still : (w : World ℕ) (j : ℕ) → j < 1 → get_state (iterate hop j w) ≡ get_state w
    still w zero lt = refl
    still w (suc j) lt = absurd (omega arith)

enable_after_fault :
    ((switch_state hop 5 operation_enable (world_in fault)).0 ≡ true)
    × (get_state (switch_state hop 5 operation_enable (world_in fault)).1 ≡ operation_enable)
    × Anything (switch_state hop 5 operation_enable (world_in fault)).1
unfolding hops
enable_after_fault =
    switch_state-Enabled hop Anything 1 hop-Follows 5 (world_in fault) (omega arith) (omega arith)
      tt

switch_returns :
    (r : Bool × World ℕ) × (switch_loop hop 6 ready_to_switch_on 5
        (get_state (world_in switch_on_disabled))
        (set_target_state ready_to_switch_on (world_in switch_on_disabled))
      ≡ some r)
    × (switch_state hop 5 ready_to_switch_on (world_in switch_on_disabled) ≡ r)
switch_returns = switch_state_total hop 5 ready_to_switch_on (world_in switch_on_disabled)

switch_reached :
    (get_state (switch_state hop 5 ready_to_switch_on (world_in switch_on_disabled)).1
      ≡ ready_to_switch_on)
    × ((switch_state hop 5 ready_to_switch_on (world_in switch_on_disabled)).1.motor.target_state
        ≡ ready_to_switch_on)
unfolding switch_state switch_loop same_state set_transition wait_for_new_state
switch_reached = switch_state-Reached hop 5 ready_to_switch_on (world_in switch_on_disabled) refl

homing_write :
    bit (handle_write no_objects (world_in operation_enable)).motor.control_word 3 ≡ bit 15 3
unfolding bit
homing_write =
    bit-handle_write no_objects 3 (omega arith) refl (ground arith) (world_in operation_enable)

-- A device that keeps the last value written.
abbrev last_value : Driver ℤ
last_value = record { get_value = λ d i s. d; set_value = λ d i s v. v }

abbrev pending_reset : World ℤ
pending_reset = record {
  motor = record (motor_in fault) { control_word = 128; start_fault_reset = true };
  device = pos 0;
}
