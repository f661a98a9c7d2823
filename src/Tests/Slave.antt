-- ===== src/Tests/Slave.antt =====
-- The simulated drive of canopen_fake_slaves at concrete inputs.
use ros2_canopen.Base.{◌≡◌, refl, true, false, none}
use ros2_canopen.Base.Bits.{bit}
use ros2_canopen.Base.Int.{pos}
use ros2_canopen.Cia402.State.{switch_on_disabled, ready_to_switch_on, decode}
use ros2_canopen.Cia402.Command.{set_transition}
use ros2_canopen.Cia402.Command.Table
use ros2_canopen.FakeSlave.{Slave, on_write_control_word}
use ros2_canopen.FakeSlave.Laws.{IsConsistent}
use ros2_canopen.FakeSlave.Commands.{
  disabled_shutdown, on_write_control_word-IsConsistent, set_transition-on_write,
}

abbrev disabled_slave : Slave
disabled_slave = record {
  state = switch_on_disabled;
  status_word = 64;
  control_word = 0;
  is_relative = false;
  is_halt = false;
  is_new_set_point = false;
  operation_mode = pos 0;
  old_operation_mode = pos 0;
  mode_thread = none;
  status_word_entry = 64;
  mode_display_entry = pos 0;
}

slave_shows :
    IsConsistent (on_write_control_word 15 disabled_slave)
    × (decode (on_write_control_word 15 disabled_slave).status_word_entry
        ≡ (on_write_control_word 15 disabled_slave).state)
unfolding bit
slave_shows = on_write_control_word-IsConsistent 15 disabled_slave (refl, refl, refl, refl, refl)

slave_commanded :
    let t = set_transition 128 switch_on_disabled ready_to_switch_on none in
    let s' = on_write_control_word t.cw disabled_slave in
    (t.success ≡ true)
    × (s'.state ≡ ready_to_switch_on)
    × (decode s'.status_word_entry ≡ ready_to_switch_on)
slave_commanded =
    set_transition-on_write disabled_slave ready_to_switch_on Table.shutdown 128 disabled_shutdown
