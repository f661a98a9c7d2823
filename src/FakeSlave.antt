-- ===== src/FakeSlave.antt =====
-- The simulated CiA 402 drive `CIA402MockSlave`, of
-- canopen_fake_slaves/include/canopen_fake_slaves/cia402_slave.hpp. The threads that simulate
-- motion are left out but for which of them runs; their arithmetic is on doubles.
pub mod Laws
pub mod Commands
use ros2_canopen.Base.{
  ℕ, ◌^◌, ◌==◌, Bool, true, false, not, ◌&&◌, ◌||◌, if◌then◌else◌, Option, some, none, bit_and,
  bit_or,
}
use ros2_canopen.Base.Bits.{bit, complement16}
use ros2_canopen.Base.Int.{ℤ, pos, negsuc, pattern_of, signed, leb_ℤ, ◌==ℤ◌}
use ros2_canopen.Cia402.Driver.{Driver}
use ros2_canopen.Cia402.State
use ros2_canopen.Cia402.State.{
  InternalState, start, not_ready_to_switch_on, switch_on_disabled, ready_to_switch_on, switched_on,
  operation_enable, quick_stop_active, fault_reaction_active, fault,
}
use ros2_canopen.Cia402.Command

-- The members that the handlers of writes use, and the entries of the object dictionary that they
-- fill. The enumerations are those of the driver, said again in the class. `mode_thread` is the
-- mode whose thread was started last; the others have been joined.
pub record Slave : Type 0 where
  pub state : InternalState
  pub status_word : ℕ
  pub control_word : ℕ
  pub is_relative : Bool
  pub is_halt : Bool
  pub is_new_set_point : Bool
  pub operation_mode : ℤ
  pub old_operation_mode : ℤ
  pub mode_thread : Option ℤ
  pub status_word_entry : ℕ
  pub mode_display_entry : ℤ

unfoldable pub set_status_bit : ℕ → Slave → Slave
set_status_bit i s = record s { status_word = bit_or s.status_word (2 ^ i) }

unfoldable pub clear_status_bit : ℕ → Slave → Slave
clear_status_bit i s = record s { status_word = bit_and s.status_word (complement16 (2 ^ i)) }

abbrev pub enter : InternalState → Slave → Slave
enter state s = record s { state = state }

unfoldable pub set_switch_on_disabled : Slave → Slave
set_switch_on_disabled s =
    let s1 = clear_status_bit State.Sw.ready_to_switch_on (enter switch_on_disabled s) in
    let s2 = clear_status_bit State.Sw.switched_on s1 in
    let s3 = clear_status_bit State.Sw.operation_enabled s2 in
    let s4 = clear_status_bit State.Sw.fault s3 in set_status_bit State.Sw.switch_on_disabled s4

unfoldable pub set_ready_to_switch_on : Slave → Slave
set_ready_to_switch_on s =
    let s1 = set_status_bit State.Sw.ready_to_switch_on (enter ready_to_switch_on s) in
    let s2 = clear_status_bit State.Sw.switched_on s1 in
    let s3 = clear_status_bit State.Sw.operation_enabled s2 in
    let s4 = clear_status_bit State.Sw.fault s3 in
    let s5 = set_status_bit State.Sw.quick_stop s4 in
    clear_status_bit State.Sw.switch_on_disabled s5

unfoldable pub set_switch_on : Slave → Slave
set_switch_on s =
    let s1 = set_status_bit State.Sw.ready_to_switch_on (enter switched_on s) in
    let s2 = set_status_bit State.Sw.switched_on s1 in
    let s3 = clear_status_bit State.Sw.operation_enabled s2 in
    let s4 = clear_status_bit State.Sw.fault s3 in
    let s5 = set_status_bit State.Sw.quick_stop s4 in
    clear_status_bit State.Sw.switch_on_disabled s5

unfoldable pub set_operation_enabled : Slave → Slave
set_operation_enabled s =
    let s1 = set_status_bit State.Sw.ready_to_switch_on (enter operation_enable s) in
    let s2 = set_status_bit State.Sw.switched_on s1 in
    let s3 = set_status_bit State.Sw.operation_enabled s2 in
    let s4 = clear_status_bit State.Sw.fault s3 in
    let s5 = set_status_bit State.Sw.quick_stop s4 in
    clear_status_bit State.Sw.switch_on_disabled s5

unfoldable pub set_quick_stop : Slave → Slave
set_quick_stop s =
    let s1 = set_status_bit State.Sw.ready_to_switch_on (enter quick_stop_active s) in
    let s2 = set_status_bit State.Sw.switched_on s1 in
    let s3 = set_status_bit State.Sw.operation_enabled s2 in
    let s4 = clear_status_bit State.Sw.fault s3 in
    let s5 = clear_status_bit State.Sw.quick_stop s4 in
    clear_status_bit State.Sw.switch_on_disabled s5

-- The commands that a control word codes.
unfoldable pub is_shutdown : ℕ → Bool
is_shutdown cw =
    (bit cw Command.Cw.fault_reset == 0)
    && ((bit cw Command.Cw.quick_stop == 1)
        && ((bit cw Command.Cw.enable_voltage == 1) && (bit cw Command.Cw.switch_on == 0)))

unfoldable pub is_disable_voltage : ℕ → Bool
is_disable_voltage cw =
    (bit cw Command.Cw.fault_reset == 0) && (bit cw Command.Cw.enable_voltage == 0)

unfoldable pub is_switch_on : ℕ → Bool
is_switch_on cw =
    (bit cw Command.Cw.fault_reset == 0)
    && ((bit cw Command.Cw.enable_operation == 0)
        && ((bit cw Command.Cw.quick_stop == 1)
            && ((bit cw Command.Cw.enable_voltage == 1) && (bit cw Command.Cw.switch_on == 1))))

unfoldable pub is_enable_operation : ℕ → Bool
is_enable_operation cw =
    (bit cw Command.Cw.fault_reset == 0)
    && ((bit cw Command.Cw.enable_operation == 1)
        && ((bit cw Command.Cw.quick_stop == 1)
            && ((bit cw Command.Cw.enable_voltage == 1) && (bit cw Command.Cw.switch_on == 1))))

unfoldable pub is_quickstop : ℕ → Bool
is_quickstop cw =
    (bit cw Command.Cw.fault_reset == 0)
    && ((bit cw Command.Cw.quick_stop == 0) && (bit cw Command.Cw.enable_voltage == 1))

unfoldable pub is_faul_reset : ℕ → Bool
is_faul_reset cw = bit cw Command.Cw.fault_reset == 1

-- `if (test()) action();`
abbrev pub when : Bool → (Slave → Slave) → Slave → Slave
when b f s = if b then f s else s

unfoldable pub on_switch_on_disabled : Slave → Slave
unfolding is_shutdown set_ready_to_switch_on
on_switch_on_disabled s = when (is_shutdown s.control_word) set_ready_to_switch_on s

unfoldable pub on_ready_to_switch_on : Slave → Slave
unfolding is_disable_voltage is_switch_on is_faul_reset set_switch_on_disabled set_switch_on
    set_ready_to_switch_on
on_ready_to_switch_on s =
    let s1 = when (is_disable_voltage s.control_word) set_switch_on_disabled s in
    let s2 = when (is_switch_on s1.control_word) set_switch_on s1 in
    when (is_faul_reset s2.control_word) set_ready_to_switch_on s2

unfoldable pub on_switched_on : Slave → Slave
unfolding is_disable_voltage is_shutdown is_enable_operation set_switch_on_disabled
    set_ready_to_switch_on set_operation_enabled
on_switched_on s =
    let s1 = when (is_disable_voltage s.control_word) set_switch_on_disabled s in
    let s2 = when (is_shutdown s1.control_word) set_ready_to_switch_on s1 in
    when (is_enable_operation s2.control_word) set_operation_enabled s2

-- The modes that a thread simulates; the others start none.
abbrev pub has_thread : ℤ → Bool
has_thread (pos n) = (n == 8) || (n == 1) || (n == 7) || (n == 6) || (n == 3)
has_thread (negsuc n) = false

-- A change of the mode joins the thread of the old one and starts that of the new one.
unfoldable pub change_mode : Slave → Slave
change_mode s =
    let s1 = clear_status_bit State.Sw.operation_mode_specific0 s in
    let s2 = clear_status_bit State.Sw.target_reached s1 in
    record s2 {
      status_word_entry = s2.status_word;
      old_operation_mode = s2.operation_mode;
      mode_thread = if has_thread s2.operation_mode then some s2.operation_mode else none;
    }

-- The commands that Operation_Enable answers.
unfoldable pub enabled_commands : Slave → Slave
unfolding is_disable_voltage is_shutdown is_switch_on is_quickstop set_switch_on_disabled
    set_ready_to_switch_on set_switch_on set_quick_stop
enabled_commands s =
    let s1 = when (is_disable_voltage s.control_word) set_switch_on_disabled s in
    let s2 = when (is_shutdown s1.control_word) set_ready_to_switch_on s1 in
    let s3 = when (is_switch_on s2.control_word) set_switch_on s2 in
    when (is_quickstop s3.control_word) set_quick_stop s3

abbrev pub set_flags : Slave → Slave
set_flags s = record s {
  is_relative = bit s.control_word 6 == 1;
  is_halt = bit s.control_word 8 == 1;
  is_new_set_point = bit s.control_word 4 == 1;
}

-- The end of `on_operation_enabled`: the flags, and the change of the mode.
unfoldable pub follow_mode : Slave → Slave
unfolding change_mode
follow_mode s =
    let s' = set_flags s in when (not (s'.old_operation_mode ==ℤ s'.operation_mode)) change_mode s'

unfoldable pub on_operation_enabled : Slave → Slave
unfolding enabled_commands follow_mode
on_operation_enabled s = follow_mode (enabled_commands s)

unfoldable pub on_quickstop_active : Slave → Slave
unfolding is_enable_operation is_disable_voltage set_operation_enabled set_switch_on_disabled
on_quickstop_active s =
    let s1 = when (is_enable_operation s.control_word) set_operation_enabled s in
    when (is_disable_voltage s1.control_word) set_switch_on_disabled s1

abbrev pub by_state : InternalState → Slave → Slave
by_state not_ready_to_switch_on s = set_switch_on_disabled s
by_state switch_on_disabled s = on_switch_on_disabled s
by_state ready_to_switch_on s = on_ready_to_switch_on s
by_state switched_on s = on_switched_on s
by_state operation_enable s = on_operation_enabled s
by_state quick_stop_active s = on_quickstop_active s
by_state _ s = s

unfoldable pub set_new_status_word_and_state : Slave → Slave
set_new_status_word_and_state s = by_state s.state s

-- `OnWrite(ControlWord, 0)`, with the word that was written.
unfoldable pub on_write_control_word : ℕ → Slave → Slave
on_write_control_word cw s =
    let s' = set_new_status_word_and_state (record s { control_word = cw }) in
    record s' { status_word_entry = s'.status_word }

-- `OnWrite(OperationMode, 0)`: a number outside 0 to 10 is displayed, and otherwise ignored.
unfoldable pub on_write_operation_mode : ℤ → Slave → Slave
on_write_operation_mode mode s =
    let s' =
      if leb_ℤ (pos 0) mode && leb_ℤ mode (pos 10) then record s { operation_mode = mode } else s in
    record s' { mode_display_entry = mode }
