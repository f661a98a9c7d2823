-- ===== src/Cia402/Motor/Handlers.antt =====
-- The handlers of the poll timer and of the services: `readState`, `handleWrite`, `handleInit`,
-- `handleShutdown`, `handleHalt`, `handleRecover`, `handleEnable` and `handleDisable`
-- (canopen_402_driver/src/motor.cpp).
pub mod Poll
pub mod Laws
pub mod Reset
use ros2_canopen.Base.{
  ℕ, Bool, true, false, not, ◌||◌, if◌then◌else◌, Option, some, none, List, [], ◌∷◌, find, store,
  ◌+◌, ◌%◌,
}
use ros2_canopen.Base.Int.{ℤ}
use ros2_canopen.Cia402.Driver.{Driver}
use ros2_canopen.Cia402.State.{
  InternalState, operation_enable, switched_on, switch_on_disabled, quick_stop_active, fault,
  fault_reaction_active, same_state,
}
use ros2_canopen.Cia402.Command.{set_transition}
use ros2_canopen.Cia402.Mode.Object
use ros2_canopen.Cia402.Mode.Object.{ModeObject, forward, profiled, homing, no_mode, homing_mode}
use ros2_canopen.Cia402.Mode.Homing
use ros2_canopen.Cia402.Mode.Homing.{Homing, execute_homing}
use ros2_canopen.Cia402.Motor.{Motor402, World, selected, put_mode, get_state}
use ros2_canopen.Cia402.Motor.Modes.{
  on_motor, register_mode, is_mode_supported_by_device, alloc_mode, switch_mode,
}
use ros2_canopen.Cia402.Motor.Switch.{switch_state}
use Poll.{read_state}

-- `handleHalt`: no quick stop is asked of a drive with a fault.
unfoldable pub handle_halt : Motor402 → Motor402 × Bool
handle_halt m =
    let state = m.state_handler.state in
    let t = set_transition m.control_word state quick_stop_active none in
    let m' = record m { target_state = quick_stop_active; control_word = t.cw } in
    if same_state state fault_reaction_active || same_state state fault
    then (m, false)
    else if not (same_state state operation_enable)
    then (record m { target_state = state }, true)
    else (m', t.success)

-- The homing object that `handleInit` holds a pointer to.
abbrev pub homing_of : Option ModeObject → Homing
homing_of (some (homing h)) = h
homing_of _ = record { channel_offset = 0; execute = false; status = 0 }

module _ {D : Type 0} (driver : Driver D) (tick : World D → World D) (seconds : ℕ → ℕ) where
  unfoldable pub run_allocators : List (ℕ × ModeObject) → World D → World D
  unfolding is_mode_supported_by_device
  run_allocators [] w = w
  run_allocators ((id, m) ∷ rest) w = run_allocators rest (
      if is_mode_supported_by_device driver id w then on_motor driver (register_mode id m) w else w)

  abbrev pub look_homing : World D → Homing
  look_homing w = homing_of (find homing_mode w.motor.modes)

  abbrev pub update_homing : World D → Homing → World D
  update_homing w h = on_motor driver (λ m. put_mode m homing_mode (homing h)) w

  -- `readState()` and then `switchState(target)`.
  unfoldable pub read_and_switch : InternalState → World D → Bool × World D
  unfolding read_state
  read_and_switch target w = switch_state tick (seconds 5) target (read_state driver w)

  unfoldable pub handle_enable : World D → Bool × World D
  unfolding read_and_switch
  handle_enable w = read_and_switch operation_enable w

  unfoldable pub handle_disable : World D → Bool × World D
  unfolding read_and_switch
  handle_disable w = read_and_switch switched_on w

  unfoldable pub handle_shutdown : World D → Bool × World D
  unfolding switch_mode
  handle_shutdown w =
      let (_, w1) = switch_mode driver tick seconds no_mode w in
      switch_state tick (seconds 5) switch_on_disabled w1

  -- `selected_mode_ && !selected_mode_->start()`, with the restarted mode.
  abbrev pub restart_mode : Motor402 → Option ℕ → Option ModeObject → Motor402 × Bool
  restart_mode m (some k) (some o) = let (o', okay) = Object.start o in (put_mode m k o', okay)
  restart_mode m _ _ = (m, true)

  unfoldable pub handle_recover : World D → Bool × World D
  unfolding selected Object.start
  handle_recover w =
      let m = record w.motor { start_fault_reset = true } in
      let (m', restarted) = restart_mode m m.selected_mode (selected m) in
      let w1 = record w { motor = m' } in
      if restarted then switch_state tick (seconds 5) operation_enable w1 else (false, w1)

  -- `handleInit` from the look at the homing mode on.
  abbrev pub home : World D → Option ModeObject → Bool × World D
  home w none = (true, w)
  home w (some (homing h)) =
      let (entered, w1) = switch_mode driver tick seconds homing_mode w in
      let hmode =
        driver.get_value w1.device ((Homing.base_index + (look_homing w1).channel_offset) % 65536)
          0 in
      let (homed, w2) =
        execute_homing look_homing update_homing tick seconds hmode w1.motor.homing_timeout_seconds
          w1 in
      if not entered
      then (false, w1)
      else if not homed
      then (false, w2)
      else switch_mode driver tick seconds no_mode w2
  home w (some _) = (false, w)

  unfoldable pub handle_init : World D → Bool × World D
  unfolding run_allocators read_state alloc_mode
  handle_init w =
      let w1 = read_state driver (run_allocators w.motor.mode_allocators w) in
      let w2 = on_motor driver (λ m. record m { control_word = 0; start_fault_reset = true }) w1 in
      let (enabled, w3) = switch_state tick (seconds 5) operation_enable w2 in
      if enabled then home w3 (alloc_mode driver homing_mode w3) else (false, w3)
