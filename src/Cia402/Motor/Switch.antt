-- ===== src/Cia402/Motor/Switch.antt =====
-- `Motor402::switchState` (canopen_402_driver/src/motor.cpp).
pub mod Laws
pub mod Enable
use ros2_canopen.Base.{ℕ, zero, suc, Bool, true, false, not, if◌then◌else◌, Option, some, none}
use ros2_canopen.Cia402.State.{InternalState, unknown, start, same_state, wait_for_new_state}
use ros2_canopen.Cia402.Command.{set_transition}
use ros2_canopen.Cia402.Motor.{World, get_state}

abbrev pub value_of : Option InternalState → InternalState
value_of none = unknown
value_of (some s) = s

module _ {D : Type 0} where
  abbrev pub set_control_word : ℕ → World D → World D
  set_control_word cw w = record w { motor = record w.motor { control_word = cw } }

  abbrev pub set_target_state : InternalState → World D → World D
  set_target_state target w = record w { motor = record w.motor { target_state = target } }

  abbrev pub or_false : World D → Option (Bool × World D) → Bool × World D
  or_false w none = (false, w)
  or_false w (some r) = r

-- `tick` is all that the other threads do, the reads and writes of the poll timer above all,
-- between two wake-ups of a wait.
module _ {D : Type 0} (tick : World D → World D) where
  -- The loop, with fuel; `ticks` is what is left until `abstime`. `none` means out of fuel.
  unfoldable pub switch_loop :
      ℕ → InternalState → ℕ → InternalState → World D → Option (Bool × World D)
  switch_loop zero target ticks state w = none
  switch_loop (suc fuel) target ticks state w =
      let t = set_transition w.motor.control_word state w.motor.target_state (some unknown) in
      let w1 = set_control_word t.cw w in
      let r = wait_for_new_state get_state tick state ticks w1 in
      let at_once = switch_loop fuel target ticks state w1 in
      let after_wait = switch_loop fuel target r.left r.state r.world in
      if same_state state w.motor.target_state
      then some (same_state state target, w)
      else if not t.success
      then some (false, w1)
      else if same_state state (value_of t.next)
      then at_once
      else if r.changed
      then after_wait
      else some (false, r.world)

  -- `timeout` is `state_switch_timeout_` in ticks. The loop never runs out of this fuel.
  unfoldable pub switch_state : ℕ → InternalState → World D → Bool × World D
  switch_state timeout target w =
      or_false w
        (switch_loop (suc timeout) target timeout (get_state w) (set_target_state target w))
