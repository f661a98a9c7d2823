-- ===== src/Devices/Inclinometer.antt =====
-- The inclinometer: `Inclinometer410`
-- (canopen_410_driver/include/canopen_410_driver/inclinometer.hpp) and its node
-- (canopen_410_driver/include/canopen_410_driver/node_interfaces/node_canopen_410_driver_impl.hpp).
-- The doubles, with the conversions between radians and raw values, and what is used of the bridge are
-- parameters; so is YAML, whose entries are `none` where they are missing or cannot be converted.
pub mod Laws
use ros2_canopen.Base.{ℕ, ◌==◌, ◌||◌, not, Bool, true, false, if◌then◌else◌, Option, none, some}
use ros2_canopen.Base.Int.{ℤ, pos, pattern_of, signed}
use ros2_canopen.Core.Manager.{value_or}

-- `double`: a raw value in radians at a resolution, radians as a rounded raw value, `== 0.0`, `> 0.0`.
pub record Floats (F : Type 0) : Type 0 where
  pub to_rad : ℤ → F → F
  pub to_raw : F → F → ℤ
  pub square : F → F
  pub is_zero : F → Bool
  pub is_positive : F → Bool
  pub nought : F

-- `universal_get_value` of two types, and `async_sdo_write_typed(..).get()` of two types, with no
-- result where it throws. The subindex is 0.
pub record Bridge (D : Type 0) : Type 0 where
  pub has_object : ℕ → D → Bool
  pub get_int16 : ℕ → D → ℤ
  pub get_int32 : ℕ → D → ℤ
  pub write_int16 : ℕ → ℤ → D → Option Bool × D
  pub write_int32 : ℕ → ℤ → D → Option Bool × D

-- `Cia410RegisterMap`
pub record RegisterMap : Type 0 where
  pub slope_long_index : ℕ
  pub slope_long_bits : ℕ
  pub slope_lateral_index : ℕ
  pub slope_lateral_bits : ℕ
  pub slope_long_preset_index : ℕ
  pub slope_lateral_preset_index : ℕ
  pub slope_long_offset_index : ℕ
  pub slope_lateral_offset_index : ℕ
  pub preset_bits : ℕ
  pub offset_bits : ℕ

-- The same entries of `register_map`.
pub record RegisterEntries : Type 0 where
  pub slope_long_index : Option ℤ
  pub slope_long_bits : Option ℤ
  pub slope_lateral_index : Option ℤ
  pub slope_lateral_bits : Option ℤ
  pub slope_long_preset_index : Option ℤ
  pub slope_lateral_preset_index : Option ℤ
  pub slope_long_offset_index : Option ℤ
  pub slope_lateral_offset_index : Option ℤ
  pub preset_bits : Option ℤ
  pub offset_bits : Option ℤ

-- `Inclinometer410`, `driver` being none for the null pointer.
pub record Inclinometer (F D : Type 0) : Type 0 where
  pub driver : Option D
  pub registers : RegisterMap
  pub deg_per_lsb : F

-- `pick_u16` and `pick_u8`
abbrev pub pick : ℕ → ℕ → Option ℤ → ℕ
pick limit out none = out
pick limit out (some z) = pattern_of limit z

unfoldable pub read_register_map : RegisterEntries → RegisterMap → RegisterMap
read_register_map e m = record {
  slope_long_index = pick 65536 m.slope_long_index e.slope_long_index;
  slope_long_bits = pick 256 m.slope_long_bits e.slope_long_bits;
  slope_lateral_index = pick 65536 m.slope_lateral_index e.slope_lateral_index;
  slope_lateral_bits = pick 256 m.slope_lateral_bits e.slope_lateral_bits;
  slope_long_preset_index = pick 65536 m.slope_long_preset_index e.slope_long_preset_index;
  slope_lateral_preset_index = pick 65536 m.slope_lateral_preset_index e.slope_lateral_preset_index;
  slope_long_offset_index = pick 65536 m.slope_long_offset_index e.slope_long_offset_index;
  slope_lateral_offset_index = pick 65536 m.slope_lateral_offset_index e.slope_lateral_offset_index;
  preset_bits = pick 256 m.preset_bits e.preset_bits;
  offset_bits = pick 256 m.offset_bits e.offset_bits;
}

-- `static_cast<int16_t>`
abbrev pub int16 : ℤ → ℤ
int16 z = signed 32768 65536 (pattern_of 65536 z)

-- A `catch` that gives false.
abbrev pub caught : Option Bool → Bool
caught none = false
caught (some ok) = ok

module _ {D : Type 0} (bridge : Bridge D) where
  abbrev pub write_by : Option D → ℕ → ℤ → ℕ → Bool × Option D
  write_by none index raw bits = (false, none)
  write_by (some d) index raw bits =
      let (ok, d') =
        if bits == 16
        then bridge.write_int16 index (int16 raw) d
        else bridge.write_int32 index raw d in
      if index == 0 then (false, some d) else (caught ok, some d')

  -- The raw value that is read, none where the object is not there.
  abbrev pub read_raw : Option D → ℕ → ℕ → Option ℤ
  read_raw none index bits = none
  read_raw (some d) index bits =
      if (index == 0) || not (bridge.has_object index d)
      then none
      else some (if bits == 16 then bridge.get_int16 index d else bridge.get_int32 index d)

module _ {F D : Type 0} (bridge : Bridge D) where
  unfoldable pub write_preset_or_offset : ℕ → ℤ → ℕ → Inclinometer F D → Bool × Inclinometer F D
  write_preset_or_offset index raw bits s =
      let (ok, driver) = write_by bridge s.driver index raw bits in
      (ok, record s { driver = driver })

  unfoldable pub zero_long : Inclinometer F D → Bool × Inclinometer F D
  unfolding write_preset_or_offset
  zero_long s =
      write_preset_or_offset s.registers.slope_long_preset_index (pos 0) s.registers.preset_bits s

  unfoldable pub zero_lateral : Inclinometer F D → Bool × Inclinometer F D
  unfolding write_preset_or_offset
  zero_lateral s =
      write_preset_or_offset s.registers.slope_lateral_preset_index (pos 0) s.registers.preset_bits
        s

  module _ (floats : Floats F) where
    abbrev pub in_rad : Option ℤ → F → F
    in_rad none deg_per_lsb = floats.nought
    in_rad (some raw) deg_per_lsb = floats.to_rad raw deg_per_lsb

    unfoldable pub get_long_rad : Inclinometer F D → F
    get_long_rad s =
        in_rad (read_raw bridge s.driver s.registers.slope_long_index s.registers.slope_long_bits)
          s.deg_per_lsb

    unfoldable pub get_lateral_rad : Inclinometer F D → F
    get_lateral_rad s =
        in_rad
          (read_raw bridge s.driver s.registers.slope_lateral_index s.registers.slope_lateral_bits)
          s.deg_per_lsb

    abbrev pub radians_to_raw : F → Inclinometer F D → ℤ
    radians_to_raw radians s =
        if floats.is_zero s.deg_per_lsb then pos 0 else floats.to_raw radians s.deg_per_lsb

    unfoldable pub set_long_offset_rad : F → Inclinometer F D → Bool × Inclinometer F D
    unfolding write_preset_or_offset
    set_long_offset_rad radians s =
        write_preset_or_offset s.registers.slope_long_offset_index (radians_to_raw radians s)
          s.registers.offset_bits s

    unfoldable pub set_lateral_offset_rad : F → Inclinometer F D → Bool × Inclinometer F D
    unfolding write_preset_or_offset
    set_lateral_offset_rad radians s =
        write_preset_or_offset s.registers.slope_lateral_offset_index (radians_to_raw radians s)
          s.registers.offset_bits s

-- The node, with the instrument that `add_to_master` makes.
pub record Node (F D : Type 0) : Type 0 where
  pub inclinometer : Option (Inclinometer F D)
  pub has_lateral_axis : Bool
  pub orientation_stddev : F

-- What is published: the two angles, and the variance of the orientation where one is known; the
-- quaternion is made from the angles by a library.
pub record Message (F : Type 0) : Type 0 where
  pub roll : F
  pub pitch : F
  pub variance : Option F

module _ {F D : Type 0} (bridge : Bridge D) (floats : Floats F) where
  abbrev pub message : Option (Inclinometer F D) → Node F D → Option (Message F)
  message none s = none
  message (some i) s = some (record {
    roll = if s.has_lateral_axis then get_lateral_rad bridge floats i else floats.nought;
    pitch = get_long_rad bridge floats i;
    variance =
        if floats.is_positive s.orientation_stddev
        then some (floats.square s.orientation_stddev)
        else none;
  })

  unfoldable pub publish : Node F D → Option (Message F)
  unfolding get_lateral_rad get_long_rad
  publish s = message s.inclinometer s
