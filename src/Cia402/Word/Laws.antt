-- ===== src/Cia402/Word/Laws.antt =====
-- A masked write reaches the bits of its mask and no others
-- (canopen_402_driver/include/canopen_402_driver/word_accessor.hpp).
use ros2_canopen.Base.{ℕ, ◌<◌, ◌≡◌, arith, bit_and, ◌==◌, if◌then◌else◌}
use ros2_canopen.Base.Bits.{
  bit, bit-bit_or, bit-bit_and, bit-le-one, complement16, bit-complement16,
}
use ros2_canopen.Cia402.Word.{assign}

-- Writing a value through a mask and then reading: the bits of the mask come from the value, and
-- every other of the 16 bits stays as it was.
pub bit-assign :
    (mask word val i : ℕ)
    → mask < 65536
    → i < 16
    → bit (assign mask word val) i ≡ (if bit mask i == 1 then bit val i else bit word i)
unfolding assign
bit-assign mask word val i hm hi = ground (
  arith,
  bit-bit_or i (bit_and word (complement16 mask)) (bit_and val mask),
  bit-bit_and i word (complement16 mask),
  bit-bit_and i val mask,
  bit-complement16 i mask hm hi,
  bit-le-one i mask,
  bit-le-one i word,
  bit-le-one i val,
)
