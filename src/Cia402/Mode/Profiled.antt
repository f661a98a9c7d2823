-- ===== src/Cia402/Mode/Profiled.antt =====
-- Profiled position mode: canopen_402_driver/include/canopen_402_driver/profiled_position_mode.hpp.
use ros2_canopen.Base.{
  ℕ, ◌+◌, ◌%◌, ◌^◌, Bool, true, false, not, ◌&&◌, if◌then◌else◌, Option, some, none,
}
use ros2_canopen.Base.Bits.{has_any}
use ros2_canopen.Base.Int.{ℤ, ◌==ℤ◌}
use ros2_canopen.Cia402.Driver.{Driver}
use ros2_canopen.Cia402.State
use ros2_canopen.Cia402.Command
use ros2_canopen.Cia402.Word
use ros2_canopen.Cia402.Mode.Target.{Target}
use ros2_canopen.Cia402.Mode.Target as TargetHelper

pub record Profiled : Type 0 where
  pub channel_offset : ℕ
  pub target : Target
  -- `last_target_` is a double that holds an int32_t, or NaN, which is `none` here.
  pub last_target : Option ℤ
  pub sw : ℕ

abbrev pub base_index : ℕ
base_index = 0x607A

abbrev pub mask_acknowledged : ℕ
mask_acknowledged = 2 ^ State.Sw.operation_mode_specific0

abbrev pub mask_error : ℕ
mask_error = 2 ^ State.Sw.operation_mode_specific1

abbrev pub cw_new_point : ℕ
cw_new_point = Command.Cw.operation_mode_specific0

abbrev pub cw_immediate : ℕ
cw_immediate = Command.Cw.operation_mode_specific1

unfoldable pub start : Profiled → Profiled × Bool
start m =
    let (t, okay) = TargetHelper.start m.target in
    (record m { sw = 0; last_target = none; target = t }, okay)

unfoldable pub read : Profiled → ℕ → Profiled × Bool
read m sw = (record m { sw = sw }, not (has_any sw mask_error))

-- `target == last_target_`; a NaN differs from everything.
abbrev pub is_last : ℤ → Option ℤ → Bool
is_last v none = false
is_last v (some l) = v ==ℤ l

pub record Written (D : Type 0) : Type 0 where
  pub cw : ℕ
  pub okay : Bool
  pub mode : Profiled
  pub device : D

module _ {D : Type 0} (driver : Driver D) (op_mode_mask : ℕ) where
  unfoldable pub send_target : Profiled → ℕ → D → Written D
  unfolding Word.set Word.reset Word.get_bit
  send_target m cw dev =
      if Word.get_bit op_mode_mask cw cw_new_point
      then record {
        cw = (Word.reset op_mode_mask cw cw_new_point).0;
        okay = true;
        mode = m;
        device = dev;
      }
      else record {
        cw = (Word.set op_mode_mask cw cw_new_point).0;
        okay = true;
        mode = record m { last_target = some m.target.target };
        device = driver.set_value dev ((base_index + m.channel_offset) % 65536) 0 m.target.target;
      }

  unfoldable pub write : Profiled → ℕ → D → Written D
  unfolding send_target
  write m cw dev =
      let cw' = (Word.set op_mode_mask cw cw_immediate).0 in
      let acknowledged = has_any m.sw mask_acknowledged in
      if m.target.has_target
      then (if not acknowledged && not (is_last m.target.target m.last_target)
          then send_target m cw' dev
          else if acknowledged
          then record {
            cw = (Word.reset op_mode_mask cw' cw_new_point).0;
            okay = true;
            mode = m;
            device = dev;
          }
          else record { cw = cw'; okay = true; mode = m; device = dev })
      else record { cw = cw'; okay = false; mode = m; device = dev }
