-- ===== src/Cia402/Motor/Handlers/Laws.antt =====
-- The control word that `Motor402::handleWrite` sends (canopen_402_driver/src/motor.cpp).
use ros2_canopen.Base.{ℕ, ◌<◌, ◌≡◌, ◌≢◌, arith, bit_and, bit_or, Option, some, none}
use ros2_canopen.Base.Words.{bit-pow_other}
use ros2_canopen.Base.Bits.{
  bit, bit-bit_or, bit-bit_and, bit-le-one, complement16, bit-complement16,
}
use ros2_canopen.Cia402.Driver.{Driver}
use ros2_canopen.Cia402.Mode.Object
use ros2_canopen.Cia402.Mode.Object.{ModeObject, mode_id, op_mode_mask}
use ros2_canopen.Cia402.Mode.Isolation.{bit-write, bit-assign_out}
use ros2_canopen.Cia402.Motor.{World, selected}
use ros2_canopen.Cia402.Motor.Handlers.Poll.{handle_write, write_mode, halt}

module _ {D : Type 0} (driver : Driver D) (i : ℕ) (low : i < 16) (out : bit op_mode_mask i ≡ 0)
    (ne : i ≢ 8) where
  halt-bit : (v : ℕ) → bit (bit_or v halt) i ≡ bit v i
  halt-bit v = omega (arith, bit-bit_or i v halt, bit-pow_other i 8 ne, bit-le-one i v)

  unhalt_bit : (v : ℕ) → bit (bit_and v (complement16 halt)) i ≡ bit v i
  unhalt_bit v = omega (
    arith,
    bit-bit_and i v (complement16 halt),
    bit-complement16 i halt (omega arith) low,
    bit-pow_other i 8 ne,
    bit-le-one i v,
  )

  bit-write_mode :
      (w : World D) (cw : ℕ) (k : Option ℕ) (o : Option ModeObject)
      → bit (write_mode driver w cw k o).motor.control_word i ≡ bit cw i
  bit-write_mode w cw (some k) (some o) = ground (
    arith,
    bit-write driver i low out o cw w.device,
    bit-assign_out op_mode_mask cw i (omega arith) low out 0,
    unhalt_bit (Object.write driver o cw w.device).cw,
  )
  bit-write_mode w cw (some k) none = bit-assign_out op_mode_mask cw i (omega arith) low out 0
  bit-write_mode w cw none o = bit-assign_out op_mode_mask cw i (omega arith) low out 0

  -- A cycle of `handleWrite` leaves each bit `i` of the control word as it was that is neither the
  -- halt bit nor specific to the mode: no mode can disturb the commands of the state machine.
  pub bit-handle_write :
      (w : World D) → bit (handle_write driver w).motor.control_word i ≡ bit w.motor.control_word i
  unfolding handle_write
  bit-handle_write w =
      let cw = bit_or w.motor.control_word halt in
      ground (
        arith,
        bit-write_mode w cw w.motor.selected_mode (selected w.motor),
        halt-bit w.motor.control_word,
      )
