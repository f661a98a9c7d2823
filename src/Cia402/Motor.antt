-- ===== src/Cia402/Motor.antt =====
-- `Motor402`: canopen_402_driver/include/canopen_402_driver/motor.hpp and
-- canopen_402_driver/src/motor.cpp. Log lines and diagnostics are left out.
pub mod Switch
pub mod Modes
pub mod Handlers
use mathlib.Core.Option
use ros2_canopen.Base.{
  ℕ, ◌+◌, ◌%◌, Bool, true, false, ◌==◌, if◌then◌else◌, Option, some, none, List, find, store,
}
use ros2_canopen.Base.Int.{ℤ, pattern_of, signed}
use ros2_canopen.Cia402.Driver.{Driver}
use ros2_canopen.Cia402.State.{InternalState, State402}
use ros2_canopen.Cia402.Mode.Object.{ModeObject, mode_id}

-- `modes` is the map of the mode objects. `selected_mode_` points to one of them: it is the key
-- under which the object stands. An allocator is the object that it makes.
pub record Motor402 : Type 0 where
  pub status_word : ℕ
  pub control_word : ℕ
  pub start_fault_reset : Bool
  pub target_state : InternalState
  pub state_handler : State402
  pub modes : List (ℕ × ModeObject)
  pub mode_allocators : List (ℕ × ModeObject)
  pub selected_mode : Option ℕ
  pub mode_id : ℕ
  pub switching_state : InternalState
  pub homing_timeout_seconds : ℕ
  pub channel_offset : ℕ

-- The motor with the device behind its driver.
pub record World (D : Type 0) : Type 0 where
  pub motor : Motor402
  pub device : D

abbrev pub status_word_entry_index : ℕ
status_word_entry_index = 0x6041

abbrev pub control_word_entry_index : ℕ
control_word_entry_index = 0x6040

abbrev pub op_mode_display_index : ℕ
op_mode_display_index = 0x6061

abbrev pub op_mode_index : ℕ
op_mode_index = 0x6060

abbrev pub supported_drive_modes_index : ℕ
supported_drive_modes_index = 0x6502

-- `get_channel_index` on uint16_t.
abbrev pub get_channel_index : Motor402 → ℕ → ℕ
get_channel_index m base_index = (base_index + m.channel_offset) % 65536

-- `*selected_mode_`, if a mode is selected.
unfoldable pub selected : Motor402 → Option ModeObject
selected m = elim m.selected_mode [ none ↦ none | some k ↦ find k m.modes ]

-- `selected_mode_ && selected_mode_->mode_id_ == mode`
unfoldable pub selected_is : Motor402 → ℕ → Bool
unfolding selected
selected_is m mode = elim (selected m) [ none ↦ false | some o ↦ mode_id o == mode ]

-- A write to the object under a key.
abbrev pub put_mode : Motor402 → ℕ → ModeObject → Motor402
put_mode m k o = record m { modes = store k o m.modes }

-- The conversion of a uint16_t to int8_t.
abbrev pub to_int8 : ℕ → ℤ
to_int8 mode = signed 128 256 (mode % 256)

-- `state_handler_.getState()` in a world.
abbrev pub get_state : {D : Type 0} → World D → InternalState
get_state w = w.motor.state_handler.state
