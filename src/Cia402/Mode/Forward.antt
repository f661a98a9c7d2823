-- ===== src/Cia402/Mode/Forward.antt =====
-- Modes that hand their target on: canopen_402_driver/include/canopen_402_driver/mode_forward_helper.hpp.
use ros2_canopen.Base.{ℕ, Bool, true, false, if◌then◌else◌, ◌+◌, ◌%◌, bit_and, bit_or}
use ros2_canopen.Base.Bits.{complement16}
use ros2_canopen.Cia402.Driver.{Driver}
use ros2_canopen.Cia402.Word
use ros2_canopen.Cia402.Mode.Target.{Target}

-- `ModeForwardHelper<ID, TYPE, OBJ, SUB, CW_MASK>`; the limits of TYPE are in the target.
pub record Forward : Type 0 where
  pub object : ℕ
  pub subindex : ℕ
  pub cw_mask : ℕ
  pub channel_offset : ℕ
  pub target : Target

module _ {D : Type 0} (driver : Driver D) (op_mode_mask : ℕ) where
  -- The control word comes back with the result, and the device with what was sent to it.
  unfoldable pub write : Forward → ℕ → D → ℕ × Bool × D
  write m cw dev =
      if m.target.has_target
      then (
        Word.assign op_mode_mask cw (bit_or (Word.get op_mode_mask cw) m.cw_mask),
        true,
        driver.set_value dev ((m.object + m.channel_offset) % 65536) m.subindex m.target.target,
      )
      else (
        Word.assign op_mode_mask cw (bit_and (Word.get op_mode_mask cw) (complement16 m.cw_mask)),
        false,
        dev,
      )
