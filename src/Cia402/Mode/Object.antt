-- ===== src/Cia402/Mode/Object.antt =====
-- A mode behind the virtual interface `Mode`: canopen_402_driver/include/canopen_402_driver/mode.hpp
-- and the mode numbers of canopen_402_driver/include/canopen_402_driver/base.hpp.
use ros2_canopen.Base.{ℕ, ◌^◌, Bool, true, false}
use ros2_canopen.Base.Bits.{◌or◌}
use ros2_canopen.Cia402.Driver.{Driver, Doubles}
use ros2_canopen.Cia402.Command
use ros2_canopen.Cia402.Mode.Target
use ros2_canopen.Cia402.Mode.Forward
use ros2_canopen.Cia402.Mode.Forward.{Forward}
use ros2_canopen.Cia402.Mode.Profiled
use ros2_canopen.Cia402.Mode.Profiled.{Profiled}
use ros2_canopen.Cia402.Mode.Homing
use ros2_canopen.Cia402.Mode.Homing.{Homing}

-- `MotorBase::OperationMode`
abbrev pub no_mode : ℕ
no_mode = 0

abbrev pub profiled_position_mode : ℕ
profiled_position_mode = 1

abbrev pub homing_mode : ℕ
homing_mode = 6

-- The mask of `OpModeAccesser`.
abbrev pub op_mode_mask : ℕ
op_mode_mask =
    2 ^ Command.Cw.operation_mode_specific0
    or 2 ^ Command.Cw.operation_mode_specific1
    or 2 ^ Command.Cw.operation_mode_specific2
    or 2 ^ Command.Cw.operation_mode_specific3

-- The classes that implement the interface; a forwarding mode carries its `mode_id_`.
pub data ModeObject : Type 0 where
  forward : ℕ → Forward → ModeObject
  profiled : Profiled → ModeObject
  homing : Homing → ModeObject

abbrev pub mode_id : ModeObject → ℕ
mode_id (forward id m) = id
mode_id (profiled m) = profiled_position_mode
mode_id (homing m) = homing_mode

unfoldable pub start : ModeObject → ModeObject × Bool
unfolding Target.start Profiled.start Homing.start
start (forward id m) =
    let (t, okay) = Target.start m.target in (forward id (record m { target = t }), okay)
start (profiled m) = let (m', okay) = Profiled.start m in (profiled m', okay)
start (homing m) = let (m', okay) = Homing.start m in (homing m', okay)

unfoldable pub read : ModeObject → ℕ → ModeObject × Bool
unfolding Profiled.read Homing.read
read (forward id m) sw = (forward id m, true)
read (profiled m) sw = let (m', okay) = Profiled.read m sw in (profiled m', okay)
read (homing m) sw = let (m', okay) = Homing.read m sw in (homing m', okay)

-- What a `write` leaves: the control word, its result, the mode and the device.
pub record Written (D : Type 0) : Type 0 where
  pub cw : ℕ
  pub okay : Bool
  pub mode : ModeObject
  pub device : D

module _ {D : Type 0} (driver : Driver D) where
  unfoldable pub write : ModeObject → ℕ → D → Written D
  unfolding Forward.write Profiled.write Homing.write
  write (forward id m) cw dev =
      let (cw', okay, dev') = Forward.write driver op_mode_mask m cw dev in
      record { cw = cw'; okay = okay; mode = forward id m; device = dev' }
  write (profiled m) cw dev =
      let r = Profiled.write driver op_mode_mask m cw dev in
      record { cw = r.cw; okay = r.okay; mode = profiled r.mode; device = r.device }
  write (homing m) cw dev =
      let (cw', okay) = Homing.write op_mode_mask m cw in
      record { cw = cw'; okay = okay; mode = homing m; device = dev }

-- The homing mode keeps the `setTarget` of `Mode`, which refuses.
module _ (doubles : Doubles) where
  unfoldable pub set_target : ModeObject → doubles.Double → ModeObject × Bool
  unfolding Target.set_target
  set_target (forward id m) val =
      let (t, okay) = Target.set_target doubles m.target val in
      (forward id (record m { target = t }), okay)
  set_target (profiled m) val =
      let (t, okay) = Target.set_target doubles m.target val in
      (profiled (record m { target = t }), okay)
  set_target (homing m) val = (homing m, false)
