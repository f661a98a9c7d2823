-- ===== src/Devices/Valve/Laws.antt =====
-- The set point that a position in percent becomes.
use ros2_canopen.Base.{◌≡◌, ◌⊎◌, refl, arith, some}
use ros2_canopen.Base.Int.{ℤ, pos, negsuc, ◌≤ℤ◌}
use ros2_canopen.Valve408.{Axis, Bridge, clamp, limit_setpoint, set_setpoint}
use ros2_canopen.Devices.Valve.{Floats, Node, int16, set_position}

-- A set point for a raw value: the value within the limits of the axis, or for a value that 16 bits
-- do not hold, the limit of the other direction. Around the wrap-around lie the codes of the float
-- state.
abbrev pub IsSetpoint : ℤ → ℤ → Type 0
IsSetpoint raw setpoint =
    ((raw ≤ℤ pos 32766) × (setpoint ≡ clamp raw (negsuc 16383) (pos 16384)))
    ⊎ (((pos 32767 ≤ℤ raw) × (raw ≤ℤ pos 32769)) ⊎ ((pos 32770 ≤ℤ raw) × (setpoint ≡ negsuc 16383)))

limit_setpoint-IsSetpoint :
    (raw : ℤ) → negsuc 32765 ≤ℤ raw → raw ≤ℤ pos 49152 → IsSetpoint raw (limit_setpoint (int16 raw))
limit_setpoint-IsSetpoint (pos n) h k = ground arith
limit_setpoint-IsSetpoint (negsuc n) h k = ground arith

module _ {F D : Type 0} (bridge : Bridge D) (floats : Floats F) where
  -- The set point that `set_position` leaves in the axis of a configured node, for a rounded raw value
  -- from -32766 to 49152: up to 32766 the raw value itself, within the limits of plus and minus 16384;
  -- and from 32770 on, where the cast to 16 bits wraps around before the limits are applied, minus
  -- 16384, full travel the other way. Of 32767 to 32769 nothing is said.
  pub set_position-IsSetpoint :
      (percent : F) (s : Node F D) (a : Axis D)
      → s.axis ≡ some a
      → negsuc 32765 ≤ℤ floats.to_raw percent s.offset s.scale_to_dev
      → floats.to_raw percent s.offset s.scale_to_dev ≤ℤ pos 49152
      → (a' : Axis D) × ((set_position bridge floats percent s).1.axis ≡ some a')
        × IsSetpoint (floats.to_raw percent s.offset s.scale_to_dev) a'.last_setpoint
  unfolding set_position
  set_position-IsSetpoint percent s a e h k =
      let raw = floats.to_raw percent s.offset s.scale_to_dev in
      ((set_setpoint bridge (int16 raw) a).1, rw e refl, limit_setpoint-IsSetpoint raw h k)
