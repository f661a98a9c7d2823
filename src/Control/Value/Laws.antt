-- ===== src/Control/Value/Laws.antt =====
-- Values on their way through the doubles.
use ros2_canopen.Base.{ℕ, ◌+◌, ◌-◌, ◌%◌, ◌≤◌, ◌<◌, ◌≡◌, refl, ◌==◌, not, if◌then◌else◌, arith}
use native.Mathlib.Nat.{mod-eq_of_lt}
use ros2_canopen.Base.Int.{ℤ, pos, negsuc, ◌≤ℤ◌, ◌==ℤ◌, pos_part, neg_part, pattern_of, signed}
use ros2_canopen.Bridge.Dictionary.{CoData}
use ros2_canopen.Control.Value.{
  Floats, IsFloats, TypeName, bool_t, int8_t, uint8_t, int16_t, uint16_t, int32_t, uint32_t,
  empty_name, other_name, value_of, put_low, Shared, of_nat, cast_unsigned, prepare_read, word_with,
  prepare_write,
}

-- The range of a type, the integers that a value of it can be.
abbrev pub lowest : TypeName → ℤ
lowest int8_t = negsuc 127
lowest int16_t = negsuc 32767
lowest int32_t = negsuc 2147483647
lowest _ = pos 0

abbrev pub highest : TypeName → ℤ
highest bool_t = pos 1
highest int8_t = pos 127
highest uint8_t = pos 255
highest int16_t = pos 32767
highest uint16_t = pos 65535
highest int32_t = pos 2147483647
highest _ = pos 4294967295

-- The low bytes that a cast to a type leaves, read as that type.
signed8 :
    (w : ℕ) (z : ℤ)
    → negsuc 127 ≤ℤ z
    → z ≤ℤ pos 127
    → signed 128 256 (put_low 256 w (pattern_of 256 z) % 256) ≡ z
signed8 w (pos n) lo hi = ground arith
signed8 w (negsuc n) lo hi = ground arith

signed16 :
    (w : ℕ) (z : ℤ)
    → negsuc 32767 ≤ℤ z
    → z ≤ℤ pos 32767
    → signed 32768 65536 (put_low 65536 w (pattern_of 65536 z) % 65536) ≡ z
signed16 w (pos n) lo hi = ground arith
signed16 w (negsuc n) lo hi = ground arith

signed32 :
    (w : ℕ) (z : ℤ)
    → negsuc 2147483647 ≤ℤ z
    → z ≤ℤ pos 2147483647
    → signed 2147483648 4294967296 (put_low 4294967296 w (pattern_of 4294967296 z) % 4294967296) ≡ z
signed32 w (pos n) lo hi = ground arith
signed32 w (negsuc n) lo hi = ground arith

unsigned8 :
    (w : ℕ) (z : ℤ) → pos 0 ≤ℤ z → z ≤ℤ pos 255 → pos (put_low 256 w (pattern_of 256 z) % 256) ≡ z
unsigned8 w (pos n) lo hi = ground arith
unsigned8 w (negsuc n) lo hi = absurd (omega arith)

unsigned16 :
    (w : ℕ) (z : ℤ)
    → pos 0 ≤ℤ z
    → z ≤ℤ pos 65535
    → pos (put_low 65536 w (pattern_of 65536 z) % 65536) ≡ z
unsigned16 w (pos n) lo hi = ground arith
unsigned16 w (negsuc n) lo hi = absurd (omega arith)

unsigned32 :
    (w : ℕ) (z : ℤ)
    → pos 0 ≤ℤ z
    → z ≤ℤ pos 4294967295
    → pos (put_low 4294967296 w (pattern_of 4294967296 z) % 4294967296) ≡ z
unsigned32 w (pos n) lo hi = ground arith
unsigned32 w (negsuc n) lo hi = absurd (omega arith)

pattern_unsigned : (z : ℤ) → pos 0 ≤ℤ z → z ≤ℤ pos 4294967295 → pos (pattern_of 4294967296 z) ≡ z
pattern_unsigned (pos n) lo hi = ground arith
pattern_unsigned (negsuc n) lo hi = absurd (omega arith)

truth_value :
    (w : ℕ) (z : ℤ)
    → pos 0 ≤ℤ z
    → z ≤ℤ pos 1
    → pos (if put_low 256 w (if not (z ==ℤ pos 0) then 1 else 0) % 256 == 0 then 0 else 1) ≡ z
truth_value w (pos n) lo hi = ground arith
truth_value w (negsuc n) lo hi = absurd (omega arith)

size_in_range :
    (lo hi z : ℤ)
    → lo ≤ℤ z
    → z ≤ℤ hi
    → negsuc 2147483647 ≤ℤ lo
    → hi ≤ℤ pos 4294967295
    → pos_part z + neg_part z ≤ 4294967296
size_in_range lo hi (pos n) l h l' h' = omega arith
size_in_range lo hi (negsuc n) l h l' h' = omega arith

module _ {F : Type 0} (floats : Floats F) (laws : IsFloats floats) where
  pub cast-of_int :
      (lo hi z : ℤ)
      → lo ≤ℤ z
      → z ≤ℤ hi
      → negsuc 2147483647 ≤ℤ lo
      → hi ≤ℤ pos 4294967295
      → floats.cast lo hi (floats.of_int z) ≡ z
  cast-of_int lo hi z l h l' h' = laws.2 lo hi z l h (size_in_range lo hi z l h l' h')

  -- A value that fits the type is copied over the low bytes of the word and read back.
  pub value_of-word_with :
      (T : TypeName) (w : ℕ) (z : ℤ)
      → lowest T ≤ℤ z
      → z ≤ℤ highest T
      → value_of T (word_with floats T w (floats.of_int z)) ≡ z
  unfolding value_of word_with
  value_of-word_with bool_t w z lo hi = rw (laws.3 z) (truth_value w z lo hi)
  value_of-word_with int8_t w z lo hi =
      rw (cast-of_int (negsuc 127) (pos 127) z lo hi (omega arith) (omega arith))
        (signed8 w z lo hi)
  value_of-word_with uint8_t w z lo hi =
      rw (cast-of_int (pos 0) (pos 255) z lo hi (omega arith) (omega arith)) (unsigned8 w z lo hi)
  value_of-word_with int16_t w z lo hi =
      rw (cast-of_int (negsuc 32767) (pos 32767) z lo hi (omega arith) (omega arith))
        (signed16 w z lo hi)
  value_of-word_with uint16_t w z lo hi =
      rw (cast-of_int (pos 0) (pos 65535) z lo hi (omega arith) (omega arith))
        (unsigned16 w z lo hi)
  value_of-word_with int32_t w z lo hi =
      rw (cast-of_int (negsuc 2147483647) (pos 2147483647) z lo hi (omega arith) (omega arith))
        (signed32 w z lo hi)
  value_of-word_with uint32_t w z lo hi =
      rw (cast-of_int (pos 0) (pos 4294967295) z lo hi (omega arith) (omega arith))
        (unsigned32 w z lo hi)
  value_of-word_with empty_name w z lo hi =
      rw (cast-of_int (pos 0) (pos 4294967295) z lo hi (omega arith) (omega arith))
        (pattern_unsigned z lo hi)
  value_of-word_with (other_name n) w z lo hi =
      rw (cast-of_int (pos 0) (pos 4294967295) z lo hi (omega arith) (omega arith))
        (pattern_unsigned z lo hi)

  pub cast_unsigned-of_nat :
      (limit n : ℕ)
      → n < limit
      → limit ≤ 4294967296
      → cast_unsigned floats limit (of_nat floats n) ≡ n
  cast_unsigned-of_nat limit n h le =
      rw
        (cast-of_int (pos 0) (pos (limit - 1)) (pos n) (omega arith) (omega arith) (omega arith)
          (omega arith))
        (mod-eq_of_lt h)

  -- A command's address and integer, all in range, survive the way to the bus and back: what
  -- `prepare_data` of a command puts into the CANopen data, `prepare_data` of received data of the
  -- same type reads out again, whatever was in the word before.
  pub prepare_read-prepare_write :
      (d : CoData) (i j : ℕ) (z : ℤ) (T : TypeName)
      → i < 65536
      → j < 256
      → lowest T ≤ℤ z
      → z ≤ℤ highest T
      → let s : Shared F = record {
        original_data = d;
        index = of_nat floats i;
        subindex = of_nat floats j;
        value = floats.of_int z;
        co_type = T;
      } in
        prepare_read floats (prepare_write floats s) ≡ record s {
          original_data = record {
            index = i;
            subindex = j;
            word = word_with floats T d.word (floats.of_int z);
          };
        }
  unfolding prepare_read prepare_write
  prepare_read-prepare_write d i j z T hi hj lo up =
      rw
        (
          cast_unsigned-of_nat 65536 i hi (omega arith),
          cast_unsigned-of_nat 256 j hj (omega arith),
          value_of-word_with T d.word z lo up,
        )
        refl
