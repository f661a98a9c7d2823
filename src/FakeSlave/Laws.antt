-- ===== src/FakeSlave/Laws.antt =====
-- The simulated drive shows its state, and follows the commands of the standard
-- (canopen_fake_slaves/include/canopen_fake_slaves/cia402_slave.hpp).
use ros2_canopen.Base.{ℕ, ◌≡◌, refl, arith, ◌==◌, leb, if◌then◌else◌}
use ros2_canopen.Base.Bits.{bit}
use ros2_canopen.Base.Words.{bit-set_one, bit-clear_one}
use ros2_canopen.Cia402.State.{
  InternalState, start, switch_on_disabled, ready_to_switch_on, switched_on, operation_enable,
  quick_stop_active,
}
use ros2_canopen.Cia402.State.Decode.{Shows}
use ros2_canopen.Cia402.Command.Table.{Request, Encodes, request}
use ros2_canopen.Cia402.Command.Table
use ros2_canopen.FakeSlave.{
  Slave, set_status_bit, clear_status_bit, set_switch_on_disabled, set_ready_to_switch_on,
  set_switch_on, set_operation_enabled, set_quick_stop, change_mode, set_flags, follow_mode,
  enabled_commands, on_switch_on_disabled, on_ready_to_switch_on, on_switched_on,
  on_quickstop_active,
}

bit-set_status :
    (i k : ℕ) (s : Slave)
    → bit (set_status_bit k s).status_word i ≡ (if k == i then 1 else bit s.status_word i)
unfolding set_status_bit
bit-set_status i k s = bit-set_one i k s.status_word

bit-clear_status :
    (i k : ℕ) (s : Slave)
    → bit (clear_status_bit k s).status_word i
      ≡ (if leb 16 i then 0 else if leb 16 k then 0 else if k == i then 0 else bit s.status_word i)
unfolding clear_status_bit
bit-clear_status i k s = bit-clear_one i k s.status_word

-- The other members stay.
state-set_status : (k : ℕ) (s : Slave) → (set_status_bit k s).state ≡ s.state
unfolding set_status_bit
state-set_status k s = refl

state-clear_status : (k : ℕ) (s : Slave) → (clear_status_bit k s).state ≡ s.state
unfolding clear_status_bit
state-clear_status k s = refl

control_word-set_status : (k : ℕ) (s : Slave) → (set_status_bit k s).control_word ≡ s.control_word
unfolding set_status_bit
control_word-set_status k s = refl

control_word-clear_status :
    (k : ℕ) (s : Slave) → (clear_status_bit k s).control_word ≡ s.control_word
unfolding clear_status_bit
control_word-clear_status k s = refl

ruleset status_bits = (
  bit-set_status, bit-clear_status, state-set_status, state-clear_status, control_word-set_status,
  control_word-clear_status,
)

-- The status word shows the state.
abbrev pub IsConsistent : Slave → Type 0
IsConsistent s = Shows s.state s.status_word

-- What a change of state leaves: the state, a status word that shows it, and the control word.
abbrev pub Enters : InternalState → Slave → Slave → Type 0
Enters to s s' = (s'.state ≡ to) × Shows to s'.status_word × (s'.control_word ≡ s.control_word)

pub set_ready_to_switch_on-Enters :
    (s : Slave) → Enters ready_to_switch_on s (set_ready_to_switch_on s)
unfolding set_ready_to_switch_on
set_ready_to_switch_on-Enters s =
    simp status_bits (refl, (refl, (refl, refl, refl, refl, refl)), refl)

pub set_switch_on-Enters : (s : Slave) → Enters switched_on s (set_switch_on s)
unfolding set_switch_on
set_switch_on-Enters s = simp status_bits (refl, (refl, (refl, refl, refl, refl, refl)), refl)

pub set_operation_enabled-Enters : (s : Slave) → Enters operation_enable s (set_operation_enabled s)
unfolding set_operation_enabled
set_operation_enabled-Enters s =
    simp status_bits (refl, (refl, (refl, refl, refl, refl, refl)), refl)

pub set_quick_stop-Enters : (s : Slave) → Enters quick_stop_active s (set_quick_stop s)
unfolding set_quick_stop
set_quick_stop-Enters s = simp status_bits (refl, (refl, (refl, refl, refl, refl, refl)), refl)

pub set_switch_on_disabled-Enters :
    (s : Slave) → Enters switch_on_disabled s (set_switch_on_disabled s)
unfolding set_switch_on_disabled
set_switch_on_disabled-Enters s = simp status_bits (refl, (refl, refl, refl, refl, refl), refl)

ruleset entering = (
  arith, set_ready_to_switch_on-Enters, set_switch_on-Enters, set_operation_enabled-Enters,
  set_quick_stop-Enters, set_switch_on_disabled-Enters,
)

module _ (s : Slave) where
  pub from_switch_on_disabled :
      Encodes Table.shutdown s.control_word → Enters ready_to_switch_on s (on_switch_on_disabled s)
  unfolding on_switch_on_disabled
  from_switch_on_disabled e = ground (arith, set_ready_to_switch_on-Enters s)

  pub ready_disable :
      Encodes Table.disable_voltage s.control_word
      → Enters switch_on_disabled s (on_ready_to_switch_on s)
  unfolding on_ready_to_switch_on
  ready_disable e = ground (arith, set_switch_on_disabled-Enters s)

  pub ready_switch_on :
      Encodes Table.switch_on s.control_word → Enters switched_on s (on_ready_to_switch_on s)
  unfolding on_ready_to_switch_on
  ready_switch_on e = ground (arith, set_switch_on-Enters s)

  pub switched_on_disable :
      Encodes Table.disable_voltage s.control_word → Enters switch_on_disabled s (on_switched_on s)
  unfolding on_switched_on
  switched_on_disable e = ground (arith, set_switch_on_disabled-Enters s)

  pub switched_on_shutdown :
      Encodes Table.shutdown s.control_word → Enters ready_to_switch_on s (on_switched_on s)
  unfolding on_switched_on
  switched_on_shutdown e = ground (arith, set_ready_to_switch_on-Enters s)

  pub switched_on_enable :
      Encodes Table.enable_operation s.control_word → Enters operation_enable s (on_switched_on s)
  unfolding on_switched_on
  switched_on_enable e = ground (arith, set_operation_enabled-Enters s)

  pub quick_stop_enable :
      Encodes Table.enable_operation s.control_word
      → Enters operation_enable s (on_quickstop_active s)
  unfolding on_quickstop_active
  quick_stop_enable e = ground (arith, set_operation_enabled-Enters s)

  pub quick_stop_disable :
      Encodes Table.disable_voltage s.control_word
      → Enters switch_on_disabled s (on_quickstop_active s)
  unfolding on_quickstop_active
  quick_stop_disable e = ground (arith, set_switch_on_disabled-Enters s)

  -- A change of mode leaves the bits that show the state.
  change_mode_frame :
      (to : InternalState)
      → Shows to s.status_word
      → Shows to (change_mode s).status_word
        × ((change_mode s).state ≡ s.state)
        × ((change_mode s).control_word ≡ s.control_word)
  unfolding change_mode
  change_mode_frame start h = absurd h
  change_mode_frame _ h = simp status_bits (h, refl, refl)

module _ (s t : Slave) (to : InternalState) (entered : Enters to s t) where
  pub follow_mode-Enters : Enters to s (follow_mode t)
  unfolding follow_mode
  follow_mode-Enters = ground (arith, change_mode_frame (set_flags t) to entered.1)

module _ (s : Slave) where
  pub enabled_disable :
      Encodes Table.disable_voltage s.control_word
      → Enters switch_on_disabled s (enabled_commands s)
  unfolding enabled_commands
  enabled_disable e = ground (arith, set_switch_on_disabled-Enters s)

  pub enabled_shutdown :
      Encodes Table.shutdown s.control_word → Enters ready_to_switch_on s (enabled_commands s)
  unfolding enabled_commands
  enabled_shutdown e = ground (arith, set_ready_to_switch_on-Enters s)

  pub enabled_switch_on :
      Encodes Table.switch_on s.control_word → Enters switched_on s (enabled_commands s)
  unfolding enabled_commands
  enabled_switch_on e = ground (arith, set_switch_on-Enters s)

  pub enabled_quick_stop :
      Encodes Table.quick_stop s.control_word → Enters quick_stop_active s (enabled_commands s)
  unfolding enabled_commands
  enabled_quick_stop e = ground (arith, set_quick_stop-Enters s)
