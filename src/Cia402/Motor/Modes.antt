-- ===== src/Cia402/Motor/Modes.antt =====
-- The operation modes of a motor: `setTarget`, `isModeSupported`, `enterModeAndWait`, `getMode`,
-- `registerMode`, `allocMode` and `switchMode` (canopen_402_driver/src/motor.cpp).
use ros2_canopen.Base.{
  ℕ, zero, suc, ◌-◌, ◌^◌, Bool, true, false, not, ◌&&◌, ◌==◌, leb, ltb, if◌then◌else◌, Option, some,
  none, find, insert,
}
use ros2_canopen.Base.Bits.{has_any}
use ros2_canopen.Base.Int.{pattern_of}
use ros2_canopen.Cia402.Driver.{Driver, Doubles}
use ros2_canopen.Cia402.State.{operation_enable, same_state}
use ros2_canopen.Cia402.Mode.Object
use ros2_canopen.Cia402.Mode.Object.{ModeObject, mode_id, no_mode, homing_mode}
use ros2_canopen.Cia402.Motor.{
  Motor402, World, selected, selected_is, put_mode, to_int8, get_channel_index, op_mode_index,
  supported_drive_modes_index,
}
use ros2_canopen.Cia402.Motor.Switch.{switch_state}

-- `registerMode(id, m)`: a mode is kept under its own number only, and the first one stays.
unfoldable pub register_mode : ℕ → ModeObject → Motor402 → Motor402
register_mode id m motor =
    if mode_id m == id then record motor { modes = insert id m motor.modes } else motor

unfoldable pub get_mode : Motor402 → ℕ
unfolding selected
get_mode motor = elim (selected motor) [ none ↦ no_mode | some o ↦ mode_id o ]

-- `selected_mode_ && selected_mode_->setTarget(val)`
module _ (doubles : Doubles) (motor : Motor402) (val : doubles.Double) where
  abbrev pub with_object : Option ℕ → Option ModeObject → Motor402 × Bool
  with_object none o = (motor, false)
  with_object (some k) none = (motor, false)
  with_object (some k) (some o) =
      let (o', okay) = Object.set_target doubles o val in (put_mode motor k o', okay)

  unfoldable pub set_target : Motor402 × Bool
  unfolding selected Object.set_target
  set_target =
      if same_state motor.state_handler.state operation_enable
      then with_object motor.selected_mode (selected motor)
      else (motor, false)

module _ {D : Type 0} (driver : Driver D) where
  abbrev pub on_motor : (Motor402 → Motor402) → World D → World D
  on_motor f w = record w { motor = f w.motor }

  -- `universal_set_value<int8_t>(get_channel_index(op_mode_index), 0x0, mode)`
  abbrev pub send_mode : ℕ → World D → World D
  send_mode mode w = record w {
    device = driver.set_value w.device (get_channel_index w.motor op_mode_index) 0 (to_int8 mode);
  }

  -- The mask of the modes, read as a uint32_t; the shift is by `mode - 1`.
  unfoldable pub is_mode_supported_by_device : ℕ → World D → Bool
  is_mode_supported_by_device mode w =
      let supported_modes =
        pattern_of (2 ^ 32)
          (driver.get_value w.device (get_channel_index w.motor supported_drive_modes_index) 0) in
      leb mode 32 && (ltb 0 mode && has_any supported_modes (2 ^ (mode - 1)))

  unfoldable pub alloc_mode : ℕ → World D → Option ModeObject
  unfolding is_mode_supported_by_device
  alloc_mode mode w = if is_mode_supported_by_device mode w then find mode w.motor.modes else none

  abbrev pub is_allocated : Option ModeObject → Bool
  is_allocated none = false
  is_allocated (some o) = true

  unfoldable pub is_mode_supported : ℕ → World D → Bool
  unfolding alloc_mode
  is_mode_supported mode w = not (mode == homing_mode) && is_allocated (alloc_mode mode w)

  -- The wait for the mode that the device displays; both variants of the source poll until the
  -- mode is there or the deadline has passed.
  module _ (tick : World D → World D) (seconds : ℕ → ℕ) where
    unfoldable pub wait_for_mode : ℕ → ℕ → World D → World D
    wait_for_mode mode zero w = w
    wait_for_mode mode (suc left) w =
        let later = wait_for_mode mode left (tick w) in if w.motor.mode_id == mode then w else later

    -- From the wait for the switch to the end of `switchMode`.
    unfoldable pub conclude_switch : ℕ → World D → Bool × World D
    conclude_switch mode w =
        let okay = w.motor.mode_id == mode in
        let w1 =
          if okay
          then on_motor (λ m. record m { selected_mode = some mode }) w
          else send_mode w.motor.mode_id w in
        let (enabled, w2) = switch_state tick (seconds 5) operation_enable w1 in
        if enabled then (okay, w2) else (false, w2)

    -- With the next mode started.
    unfoldable pub enter_mode : ℕ → World D → Bool × World D
    unfolding selected_is wait_for_mode conclude_switch
    enter_mode mode w =
        let w1 = on_motor (λ m. record m { selected_mode = none }) w in
        let (switched, w2) = switch_state tick (seconds 5) w1.motor.switching_state w1 in
        if (w.motor.mode_id == mode) && selected_is w.motor mode
        then (true, w)
        else if not switched
        then (false, w2)
        else conclude_switch mode (wait_for_mode mode (seconds 5) (send_mode mode w2))

    abbrev pub start_mode : ℕ → World D → Option ModeObject → Bool × World D
    start_mode mode w none = (false, w)
    start_mode mode w (some next) =
        let (next', started) = Object.start next in
        let w1 = on_motor (λ m. put_mode m mode next') w in
        if started then enter_mode mode w1 else (false, w1)

    unfoldable pub switch_mode : ℕ → World D → Bool × World D
    unfolding alloc_mode enter_mode Object.start
    switch_mode mode w =
        if mode == no_mode
        then (true, send_mode mode (on_motor (λ m. record m { selected_mode = none }) w))
        else start_mode mode w (alloc_mode mode w)

    unfoldable pub enter_mode_and_wait : ℕ → World D → Bool × World D
    unfolding switch_mode
    enter_mode_and_wait mode w = if mode == homing_mode then (false, w) else switch_mode mode w
