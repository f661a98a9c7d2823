-- ===== src/Cia402/Word.antt =====
-- Masked access to a 16-bit word: canopen_402_driver/include/canopen_402_driver/word_accessor.hpp.
pub mod Laws
use ros2_canopen.Base.{ℕ, ◌^◌, Bool, not, ◌==◌, bit_and, bit_or}
use ros2_canopen.Base.Bits.{has_any, complement16}

-- Each operation of `WordAccessor<MASK>` takes the mask and the word that it refers to; those that
-- write return the new word, `set` and `reset` with their result.
unfoldable pub set : ℕ → ℕ → ℕ → ℕ × Bool
set mask word i = let val = bit_and mask (2 ^ i) in (bit_or word val, not (val == 0))

unfoldable pub reset : ℕ → ℕ → ℕ → ℕ × Bool
reset mask word i =
    let val = bit_and mask (2 ^ i) in (bit_and word (complement16 val), not (val == 0))

unfoldable pub get_bit : ℕ → ℕ → ℕ → Bool
get_bit mask word i = has_any word (2 ^ i)

unfoldable pub get : ℕ → ℕ → ℕ
get mask word = bit_and word mask

unfoldable pub assign : ℕ → ℕ → ℕ → ℕ
assign mask word val = bit_or (bit_and word (complement16 mask)) (bit_and val mask)
