-- ===== src/Cia402/Mode/Isolation.antt =====
-- No mode touches a bit of the control word outside the mode-specific ones (4, 5, 6 and 9):
-- the `write` methods of the modes and `WordAccessor`
-- (canopen_402_driver/include/canopen_402_driver/word_accessor.hpp).
use ros2_canopen.Base.{ℕ, ◌^◌, ◌<◌, ◌≡◌, arith, bit_and, bit_or}
use ros2_canopen.Base.Words.{bit_and-le}
use ros2_canopen.Base.Bits.{
  bit, bit-bit_or, bit-bit_and, bit-le-one, complement16, bit-complement16,
}
use ros2_canopen.Cia402.Driver.{Driver}
use ros2_canopen.Cia402.Word
use ros2_canopen.Cia402.Word.Laws.{bit-assign}
use ros2_canopen.Cia402.Mode.Profiled
use ros2_canopen.Cia402.Mode.Profiled.{Profiled, Written}
use ros2_canopen.Cia402.Mode.Object
use ros2_canopen.Cia402.Mode.Object.{ModeObject, forward, profiled, homing, op_mode_mask}

-- Bit `i` is not in the mask.
module _ (mask word i : ℕ) (small : mask < 65536) (low : i < 16) (out : bit mask i ≡ 0) where
  pub bit-assign_out : (val : ℕ) → bit (Word.assign mask word val) i ≡ bit word i
  bit-assign_out val = ground (arith, bit-assign mask word val i small low)

  picked_out : (k : ℕ) → bit (bit_and mask (2 ^ k)) i ≡ 0
  picked_out k = omega (arith, bit-bit_and i mask (2 ^ k))

  picked_small : (k : ℕ) → bit_and mask (2 ^ k) < 65536
  picked_small k = omega (arith, small, bit_and-le mask (2 ^ k))

  bit-set_out : (k : ℕ) → bit (Word.set mask word k).0 i ≡ bit word i
  unfolding Word.set
  bit-set_out k =
      omega (arith, bit-bit_or i word (bit_and mask (2 ^ k)), picked_out k, bit-le-one i word)

  bit-reset_out : (k : ℕ) → bit (Word.reset mask word k).0 i ≡ bit word i
  unfolding Word.reset
  bit-reset_out k = omega (
    arith,
    bit-bit_and i word (complement16 (bit_and mask (2 ^ k))),
    bit-complement16 i (bit_and mask (2 ^ k)) (picked_small k) low,
    picked_out k,
    bit-le-one i word,
  )

abbrev op_mask_small : op_mode_mask < 65536
op_mask_small = omega arith

module _ {D : Type 0} (driver : Driver D) (i : ℕ) (low : i < 16)
    (out : bit op_mode_mask i ≡ 0) where
  bit-send_target :
      (m : Profiled) (cw : ℕ) (dev : D)
      → bit (Profiled.send_target driver op_mode_mask m cw dev).cw i ≡ bit cw i
  unfolding Profiled.send_target
  bit-send_target m cw dev = ground (
    arith,
    bit-set_out op_mode_mask cw i op_mask_small low out 4,
    bit-reset_out op_mode_mask cw i op_mask_small low out 4,
  )

  bit-write_profiled :
      (m : Profiled) (cw : ℕ) (dev : D)
      → bit (Profiled.write driver op_mode_mask m cw dev).cw i ≡ bit cw i
  unfolding Profiled.write
  bit-write_profiled m cw dev =
      let cw' = (Word.set op_mode_mask cw 5).0 in
      ground (
        arith,
        bit-set_out op_mode_mask cw i op_mask_small low out 5,
        bit-reset_out op_mode_mask cw' i op_mask_small low out 4,
        bit-send_target m cw' dev,
      )

  -- Whatever mode is selected and whatever it does, the control word comes back from its `write`
  -- with each bit that is not specific to the mode as it was.
  pub bit-write :
      (o : ModeObject) (cw : ℕ) (dev : D) → bit (Object.write driver o cw dev).cw i ≡ bit cw i
  unfolding Object.write
  bit-write (forward id m) cw dev =
      let value = Word.get op_mode_mask cw in
      ground (
        arith,
        bit-assign_out op_mode_mask cw i op_mask_small low out (bit_or value m.cw_mask),
        bit-assign_out op_mode_mask cw i op_mask_small low out
            (bit_and value (complement16 m.cw_mask)),
      )
  bit-write (profiled m) cw dev = bit-write_profiled m cw dev
  bit-write (homing m) cw dev =
      let cw' = Word.assign op_mode_mask cw 0 in
      ground (
        arith,
        bit-assign_out op_mode_mask cw i op_mask_small low out 0,
        bit-set_out op_mode_mask cw' i op_mask_small low out 4,
      )
