-- ===== src/Cia402/Motor/Handlers/Reset.antt =====
-- The halt and the reset of faults (canopen_402_driver/src/motor.cpp).
use ros2_canopen.Base.{
  ℕ, ◌^◌, ◌≡◌, ◌≢◌, ◌⊎◌, refl, ◌∙◌, arith, true, false, none, bit_or, bit_and, if◌then◌else◌,
}
use ros2_canopen.Base.Bits.{bit, complement16}
use ros2_canopen.Base.Words.{bit-set_one, bit-clear_one}
use ros2_canopen.Base.Int.{pos}
use ros2_canopen.Cia402.Driver.{Driver}
use ros2_canopen.Cia402.State.{
  InternalState, operation_enable, quick_stop_active, fault_reaction_active, fault,
  same_state_cases, same_state_ne,
}
use ros2_canopen.Cia402.Command.{set_transition}
use ros2_canopen.Cia402.Command.Cw
use ros2_canopen.Cia402.Command.Table
use ros2_canopen.Cia402.Command.Table.{Encodes, set_transition_lem, apply-Encodes, op_of}
use ros2_canopen.Cia402.Motor.{
  Motor402, World, get_channel_index, control_word_entry_index, get_state,
}
use ros2_canopen.Cia402.Motor.Handlers.{handle_halt}
use ros2_canopen.Cia402.Motor.Handlers.Poll.{handle_write, halt}

quick_stop-Encodes :
    (cw : ℕ) (s : InternalState)
    → s ≡ operation_enable
    → let t = set_transition cw s quick_stop_active none in
      (t.success ≡ true) × Encodes Table.quick_stop t.cw
quick_stop-Encodes cw s e =
    rw (e, set_transition_lem cw operation_enable quick_stop_active none (ground arith))
      (refl, apply-Encodes Table.quick_stop cw)

-- `handleHalt` refuses in the fault states, where nothing changes; in Operation_Enable it
-- commands the quick stop of the standard and sets it as the target; in the other states it stays
-- where it is, with the control word as it was.
pub handle_halt_lem :
    (m : Motor402)
    → let state = m.state_handler.state in
      let r = handle_halt m in
      ((r.1 ≡ false) × (r.0 ≡ m) × ((state ≡ fault_reaction_active) ⊎ (state ≡ fault)))
      ⊎ (((r.1 ≡ true)
            × (state ≡ operation_enable)
            × (r.0.target_state ≡ quick_stop_active)
            × Encodes Table.quick_stop r.0.control_word)
          ⊎ ((r.1 ≡ true)
              × (state ≢ operation_enable)
              × (r.0.target_state ≡ state)
              × (r.0.control_word ≡ m.control_word)))
unfolding handle_halt
handle_halt_lem m =
    let s = m.state_handler.state in
    ground (
      arith,
      same_state_cases s fault_reaction_active,
      same_state_cases s fault,
      same_state_cases s operation_enable,
      quick_stop-Encodes m.control_word s,
    )

module _ {D : Type 0} (driver : Driver D) where
  -- The word that a cycle of `handleWrite` sends outside Operation_Enable.
  sent : World D → ℕ
  sent w =
      if w.motor.start_fault_reset
      then bit_and (bit_or w.motor.control_word halt) (complement16 (2 ^ Cw.fault_reset))
      else bit_or w.motor.control_word halt

  low_bit_sent : (w : World D) → w.motor.start_fault_reset ≡ true → bit (sent w) Cw.fault_reset ≡ 0
  unfolding sent
  low_bit_sent w pending =
      rw pending (bit-clear_one Cw.fault_reset Cw.fault_reset (bit_or w.motor.control_word halt))

  high_bit_sent :
      (w : World D)
      → w.motor.start_fault_reset ≡ false
      → bit w.motor.control_word Cw.fault_reset ≡ 1
      → bit (sent w) Cw.fault_reset ≡ 1
  unfolding sent
  high_bit_sent w pending set =
      rw pending (bit-set_one Cw.fault_reset Cw.halt w.motor.control_word ∙ set)

  handle_write_idle :
      (w : World D)
      → get_state w ≢ operation_enable
      → handle_write driver w ≡ record {
        motor = record w.motor {
          control_word = bit_or w.motor.control_word halt;
          start_fault_reset = false;
        };
        device =
            driver.set_value w.device
              (get_channel_index w.motor control_word_entry_index)
              0
              (pos (sent w));
      }
  unfolding handle_write sent
  handle_write_idle w ne = rw (same_state_ne (get_state w) operation_enable ne) refl

  -- A reset of faults is an edge: outside Operation_Enable, with the reset bit in the control word
  -- and a reset pending, one cycle sends a word with the bit cleared and the next one with the bit
  -- set, and the reset is no longer pending.
  pub handle_write-reset :
      (w : World D)
      → get_state w ≢ operation_enable
      → w.motor.start_fault_reset ≡ true
      → bit w.motor.control_word Cw.fault_reset ≡ 1
      → let w1 = handle_write driver w in
        let w2 = handle_write driver w1 in
        let index = get_channel_index w.motor control_word_entry_index in
        (low : ℕ) × (high : ℕ) × (w1.device ≡ driver.set_value w.device index 0 (pos low))
        × (w2.device ≡ driver.set_value w1.device index 0 (pos high))
        × (bit low Cw.fault_reset ≡ 0)
        × (bit high Cw.fault_reset ≡ 1)
        × (w2.motor.start_fault_reset ≡ false)
  handle_write-reset w ne pending set =
      let v = bit_or w.motor.control_word halt in
      let w1 : World D = record {
        motor = record w.motor { control_word = v; start_fault_reset = false };
        device =
            driver.set_value w.device (get_channel_index w.motor control_word_entry_index) 0
              (pos (sent w));
      } in
      let kept = bit-set_one Cw.fault_reset Cw.halt w.motor.control_word ∙ set in
      rw (handle_write_idle w ne, handle_write_idle w1 ne)
        (sent w, sent w1, refl, refl, low_bit_sent w pending, high_bit_sent w1 refl kept, refl)
