-- ===== src/Control/Value.antt =====
-- The values of ros2_control: doubles that carry integers of the bus, `Ros2ControlCOData` and its
-- heirs (canopen_ros2_control/include/canopen_ros2_control/canopen_system.hpp). The doubles are a
-- parameter; a `memcpy` takes the low bytes of a word, as on a little-endian machine.
pub mod Laws
use ros2_canopen.Base.{ℕ, ◌+◌, ◌-◌, ◌%◌, ◌≤◌, ◌==◌, ◌≡◌, not, Bool, true, false, if◌then◌else◌}
use ros2_canopen.Base.Int.{ℤ, pos, negsuc, ◌≤ℤ◌, ◌==ℤ◌, pos_part, neg_part, pattern_of, signed}
use ros2_canopen.Bridge.Dictionary.{CoData}

-- `double`: `static_cast<double>` of an integer, `static_cast` to the integers between two bounds,
-- and `static_cast<bool>`.
pub record Floats (F : Type 0) : Type 0 where
  pub quiet_nan : F
  pub is_nan : F → Bool
  pub of_int : ℤ → F
  pub cast : ℤ → ℤ → F → ℤ
  pub truth : F → Bool

-- What the code relies on: the integers of up to 32 bits are doubles and come back by a cast to a
-- type that holds them.
abbrev pub IsFloats : {F : Type 0} → Floats F → Type 0
IsFloats {F = F} floats =
    (floats.is_nan floats.quiet_nan ≡ true)
    × ((z : ℤ) → floats.is_nan (floats.of_int z) ≡ false)
    × ((lo hi z : ℤ)
        → lo ≤ℤ z
        → z ≤ℤ hi
        → pos_part z + neg_part z ≤ 4294967296
        → floats.cast lo hi (floats.of_int z) ≡ z)
    × ((z : ℤ) → floats.truth (floats.of_int z) ≡ not (z ==ℤ pos 0))

-- The names in `co_type`: those of `SUPPORTED_TYPES`, the empty string, and others.
pub data TypeName : Type 0 where
  bool_t int8_t uint8_t int16_t uint16_t int32_t uint32_t empty_name : TypeName
  other_name : ℕ → TypeName

abbrev pub is_supported : TypeName → Bool
is_supported empty_name = false
is_supported (other_name n) = false
is_supported _ = true

-- `type.empty() || find(...)`, and the default where both fail.
abbrev pub accepted : TypeName → TypeName
accepted (other_name n) = int32_t
accepted T = T

-- What a word holds of a type, `memcpy` with a signed or an unsigned type; a bool is one byte.
unfoldable pub value_of : TypeName → ℕ → ℤ
value_of bool_t word = pos (if word % 256 == 0 then 0 else 1)
value_of int8_t word = signed 128 256 (word % 256)
value_of uint8_t word = pos (word % 256)
value_of int16_t word = signed 32768 65536 (word % 65536)
value_of uint16_t word = pos (word % 65536)
value_of int32_t word = signed 2147483648 4294967296 (word % 4294967296)
value_of uint32_t word = pos (word % 4294967296)
value_of empty_name word = pos word
value_of (other_name n) word = pos word

-- `memcpy` of the `size` values of a type over the low bytes of a word.
abbrev pub put_low : ℕ → ℕ → ℕ → ℕ
put_low size word bits = word - word % size + bits

-- `Ros2ControlCOData`
pub record Shared (F : Type 0) : Type 0 where
  pub original_data : CoData
  pub index : F
  pub subindex : F
  pub value : F
  pub co_type : TypeName

-- `WORos2ControlCoData`
pub record Command (F : Type 0) : Type 0 where
  pub shared : Shared F
  pub one_shot : F

abbrev pub set_co_data_type : {F : Type 0} → TypeName → Shared F → Shared F
set_co_data_type T s = record s { co_type = accepted T }

module _ {F : Type 0} (floats : Floats F) where
  abbrev pub of_nat : ℕ → F
  of_nat n = floats.of_int (pos n)

  -- `static_cast<double>` of a truth value
  abbrev pub of_bool : Bool → F
  of_bool b = if b then of_nat 1 else of_nat 0

  abbrev pub cast_unsigned : ℕ → F → ℕ
  cast_unsigned limit x = pattern_of limit (floats.cast (pos 0) (pos (limit - 1)) x)

  abbrev pub cast_signed : ℕ → F → ℕ
  cast_signed half x = pattern_of (half + half) (floats.cast (negsuc (half - 1)) (pos (half - 1)) x)

  -- `RORos2ControlCOData::prepare_data`
  unfoldable pub prepare_read : Shared F → Shared F
  unfolding value_of
  prepare_read s = record s {
    index = of_nat s.original_data.index;
    subindex = of_nat s.original_data.subindex;
    value = floats.of_int (value_of s.co_type s.original_data.word);
  }

  abbrev pub set_data : CoData → Shared F → Shared F
  set_data d s = record s { original_data = d }

  -- The word after the value is copied over it.
  unfoldable pub word_with : TypeName → ℕ → F → ℕ
  word_with bool_t word x = put_low 256 word (if floats.truth x then 1 else 0)
  word_with int8_t word x = put_low 256 word (cast_signed 128 x)
  word_with uint8_t word x = put_low 256 word (cast_unsigned 256 x)
  word_with int16_t word x = put_low 65536 word (cast_signed 32768 x)
  word_with uint16_t word x = put_low 65536 word (cast_unsigned 65536 x)
  word_with int32_t word x = put_low 4294967296 word (cast_signed 2147483648 x)
  word_with uint32_t word x = put_low 4294967296 word (cast_unsigned 4294967296 x)
  word_with empty_name word x = cast_unsigned 4294967296 x
  word_with (other_name n) word x = cast_unsigned 4294967296 x

  -- `WORos2ControlCoData::prepare_data`
  unfoldable pub prepare_write : Shared F → Shared F
  unfolding word_with
  prepare_write s = record s {
    original_data = record {
      index = cast_unsigned 65536 s.index;
      subindex = cast_unsigned 256 s.subindex;
      word = word_with s.co_type s.original_data.word s.value;
    };
  }

  abbrev pub is_active : F → Bool
  is_active command = not (floats.is_nan command)

  -- `write_command`
  unfoldable pub write_command : Command F → Bool × Command F
  write_command c = (is_active c.one_shot, record c { one_shot = floats.quiet_nan })
