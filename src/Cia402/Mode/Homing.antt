-- ===== src/Cia402/Mode/Homing.antt =====
-- Homing: canopen_402_driver/src/default_homing_mode.cpp and
-- canopen_402_driver/include/canopen_402_driver/default_homing_mode.hpp.
pub mod Laws
use ros2_canopen.Base.{
  ℕ, zero, suc, ◌^◌, ◌==◌, Bool, true, false, not, ◌&&◌, if◌then◌else◌, bit_and,
}
use ros2_canopen.Base.Bits.{has_any, ◌or◌}
use ros2_canopen.Base.Int.{ℤ, pos, ◌==ℤ◌}
use ros2_canopen.Cia402.State
use ros2_canopen.Cia402.Command
use ros2_canopen.Cia402.Word

-- `DefaultHomingMode`: the flag that asks `write` to start homing, and the masked status word.
pub record Homing : Type 0 where
  pub channel_offset : ℕ
  pub execute : Bool
  pub status : ℕ

abbrev pub base_index : ℕ
base_index = 0x6098

abbrev pub mask_reached : ℕ
mask_reached = 2 ^ State.Sw.target_reached

abbrev pub mask_attained : ℕ
mask_attained = 2 ^ State.Sw.operation_mode_specific0

abbrev pub mask_error : ℕ
mask_error = 2 ^ State.Sw.operation_mode_specific1

abbrev pub cw_start_homing : ℕ
cw_start_homing = Command.Cw.operation_mode_specific0

unfoldable pub read : Homing → ℕ → Homing × Bool
read m sw = (record m { status = bit_and sw (mask_reached or mask_attained or mask_error) }, true)

unfoldable pub start : Homing → Homing × Bool
unfolding read
start m = read (record m { execute = false }) 0

unfoldable pub write : ℕ → Homing → ℕ → ℕ × Bool
write op_mode_mask m cw =
    let cw' = Word.assign op_mode_mask cw 0 in
    if m.execute then ((Word.set op_mode_mask cw' cw_start_homing).0, true) else (cw', false)

-- `masked_status_not_equal<mask, not_equal>`
unfoldable pub masked_status_not_equal : ℕ → ℕ → Homing → Bool
masked_status_not_equal mask not_equal m = not (bit_and m.status mask == not_equal)

-- What `wait_until` leaves: the value of the predicate, and the ticks left until the deadline.
pub record Waited (W : Type 0) : Type 0 where
  pub holds : Bool
  pub left : ℕ
  pub world : W

-- The mode object stands in a world of which the other threads change the rest, and its status,
-- at each tick of a wait. `now_plus` gives the ticks in a number of seconds.
module _ {W : Type 0} (look : W → Homing) (update : W → Homing → W) (tick : W → W)
    (now_plus : ℕ → ℕ) where
  unfoldable pub wait_until : (Homing → Bool) → ℕ → W → Waited W
  wait_until pred zero w = record { holds = pred (look w); left = 0; world = w }
  wait_until pred (suc left) w =
      let rest = wait_until pred left (tick w) in
      if pred (look w) then record { holds = true; left = suc left; world = w } else rest

  abbrev pub set_execute : Bool → W → W
  set_execute b w = update w (record (look w) { execute = b })

  -- `error(msg)`
  unfoldable pub error : W → Bool × W
  error w = (false, set_execute false w)

  -- The end of `executeHoming`.
  unfoldable pub finish : W → Bool × W
  unfolding error
  finish w =
      if has_any (look w).status mask_reached && has_any (look w).status mask_attained
      then (true, set_execute false w)
      else error w

  -- A wait, and the two ways out behind it: the deadline and the error bit.
  unfoldable pub await : ℕ → ℕ → ℕ → W → (ℕ → W → Bool × W) → Bool × W
  unfolding wait_until error
  await mask not_equal deadline w next =
      let r = wait_until (masked_status_not_equal mask not_equal) deadline w in
      if not r.holds
      then error r.world
      else if has_any (look r.world).status mask_error
      then error r.world
      else next r.left r.world

  -- `hmode` is the homing method read from the device (object 0x6098 of the channel).
  unfoldable pub execute_homing : ℤ → ℕ → W → Bool × W
  execute_homing hmode homing_timeout_seconds w =
      if hmode ==ℤ pos 0
      then (true, w)
      else await (mask_error or mask_reached) 0 (now_plus 1) w λ prepare w1.
        await (mask_error or mask_attained or mask_reached) mask_reached prepare
          (set_execute true w1)
          λ _ w2.
            await (mask_error or mask_attained) 0 (now_plus homing_timeout_seconds) w2
              λ left w3. await (mask_error or mask_reached) 0 left w3 λ _ w4. finish w4
