-- ===== src/Cia402/Motor/Handlers/Poll.antt =====
-- What the poll timer does with a motor: `readState` and `handleWrite`
-- (canopen_402_driver/src/motor.cpp).
use ros2_canopen.Base.{ℕ, ◌^◌, ◌==◌, false, if◌then◌else◌, Option, some, bit_and, bit_or}
use ros2_canopen.Base.Bits.{complement16}
use ros2_canopen.Base.Int.{pos, pattern_of}
use ros2_canopen.Cia402.Driver.{Driver}
use ros2_canopen.Cia402.State
use ros2_canopen.Cia402.State.{operation_enable, same_state}
use ros2_canopen.Cia402.Command
use ros2_canopen.Cia402.Word
use ros2_canopen.Cia402.Mode.Object
use ros2_canopen.Cia402.Mode.Object.{ModeObject, mode_id, op_mode_mask}
use ros2_canopen.Cia402.Motor.{
  Motor402, World, selected, put_mode, get_channel_index, status_word_entry_index,
  control_word_entry_index, op_mode_display_index,
}

abbrev pub halt : ℕ
halt = 2 ^ Command.Cw.halt

module _ {D : Type 0} (driver : Driver D) where
  -- The selected mode reads the status word if the device displays its number.
  abbrev pub read_mode : ℕ → ℕ → Motor402 → Option ℕ → Option ModeObject → Motor402
  read_mode new_mode sw m (some k) (some o) =
      if mode_id o == new_mode then put_mode m k (Object.read o sw).0 else m
  read_mode new_mode sw m _ _ = m

  -- The mode on display is an int8_t, converted to uint16_t.
  unfoldable pub read_state : World D → World D
  unfolding State.read selected Object.read
  read_state w =
      let m = w.motor in
      let sw =
        pattern_of 65536
          (driver.get_value w.device (get_channel_index m status_word_entry_index) 0) in
      let m1 = record m { status_word = sw; state_handler = (State.read m.state_handler sw).0 } in
      let new_mode =
        pattern_of 65536
          (driver.get_value w.device (get_channel_index m op_mode_display_index) 0) in
      let m2 = read_mode new_mode sw m1 m1.selected_mode (selected m1) in
      record w { motor = record m2 { mode_id = new_mode } }

  abbrev pub with_word : World D → ℕ → World D
  with_word w cw = record w { motor = record w.motor { control_word = cw } }

  -- The control word in Operation_Enable: the selected mode writes its bits, if the device
  -- displays its number, and lifts the halt bit if it is content.
  abbrev pub write_mode : World D → ℕ → Option ℕ → Option ModeObject → World D
  write_mode w cw (some k) (some o) =
      let r = Object.write driver o cw w.device in
      let cw' = if r.okay then bit_and r.cw (complement16 halt) else r.cw in
      if mode_id o == w.motor.mode_id
      then record {
        motor = put_mode (record w.motor { control_word = cw' }) k r.mode;
        device = r.device;
      }
      else with_word w (Word.assign op_mode_mask cw 0)
  write_mode w cw _ _ = with_word w (Word.assign op_mode_mask cw 0)

  -- The word that is sent: after a request to reset faults, once with the reset bit cleared.
  abbrev pub send_word : World D → World D
  send_word w =
      let cw = w.motor.control_word in
      let sent =
        if w.motor.start_fault_reset
        then bit_and cw (complement16 (2 ^ Command.Cw.fault_reset))
        else cw in
      record {
        motor = record w.motor { start_fault_reset = false };
        device =
            driver.set_value w.device (get_channel_index w.motor control_word_entry_index) 0
              (pos sent);
      }

  unfoldable pub handle_write : World D → World D
  unfolding selected Object.write Word.assign
  handle_write w =
      let cw = bit_or w.motor.control_word halt in
      send_word (
        if same_state w.motor.state_handler.state operation_enable
        then write_mode w cw w.motor.selected_mode (selected w.motor)
        else with_word w cw)
