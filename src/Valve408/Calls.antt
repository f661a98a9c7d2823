-- ===== src/Valve408/Calls.antt =====
-- Sequences of calls of the valve's axis (canopen_408_driver/src/hydraulic_axis.cpp).
use ros2_canopen.Base.{not, ◌&&◌, ◌≡◌, ◌⊎◌, inl, inr, refl, arith, Bool, true, false, List, [], ◌∷◌}
use mathlib.Core.Bool.{true≢false}
use ros2_canopen.Base.Int.{ℤ, pos, negsuc, ◌≤ℤ◌}
use ros2_canopen.Valve408.{
  Bridge, Axis, idle, active, enable, recover, hold_axis, disable, advance_phase_locked,
  send_setpoint, spin_once, set_setpoint, set_float, save_to_eeprom,
}
use ros2_canopen.Valve408.Cw
use ros2_canopen.Valve408.Climb.{spin_fields}

-- The calls that change the members.
pub data Call : Type 0 where
  call_enable call_recover call_hold call_disable call_spin call_float call_save : Call
  call_setpoint : ℤ → Call

-- The calls that start no climb.
abbrev pub starts : Call → Bool
starts call_enable = true
starts call_recover = true
starts _ = false

-- An enabled axis streams the active word, out of a climb or at its last phase, and an int16 set point is in the documented range or
-- asks for the float state.
unfoldable pub IsSafe {ℓ} : {D : Type ℓ} → Axis D → Type 0
IsSafe a =
    ((a.enabled ≡ false) ⊎ (((a.phase ≡ idle) ⊎ (a.phase ≡ active)) × (a.current_cw ≡ Cw.active)))
    × (((negsuc 16383 ≤ℤ a.last_setpoint) × (a.last_setpoint ≤ℤ pos 16384))
        ⊎ ((a.last_setpoint ≡ pos 32767) ⊎ (a.last_setpoint ≡ negsuc 32766)))

abbrev pub starts_none : List Call → Bool
starts_none [] = true
starts_none (c ∷ cs) = not (starts c) && starts_none cs

-- No climb is on.
unfoldable IsDown {ℓ} : {D : Type ℓ} → Axis D → Type 0
IsDown a =
    (a.phase ≡ idle)
    × (a.enabled ≡ false)
    × ((a.current_cw ≡ Cw.hold) ⊎ (a.current_cw ≡ Cw.disabled))

-- The bounds of a set point.
abbrev IsLimited : ℤ → Type 0
IsLimited v = ((negsuc 16383 ≤ℤ v) × (v ≤ℤ pos 16384)) ⊎ ((v ≡ pos 32767) ⊎ (v ≡ negsuc 32766))

module _ {ℓ} {D : Type ℓ} (bridge : Bridge D) where
  abbrev pub call : Call → Axis D → Axis D
  call call_enable a = enable a
  call call_recover a = recover a
  call call_hold a = hold_axis a
  call call_disable a = disable a
  call call_spin a = (spin_once bridge a).1
  call call_float a = (set_float bridge a).1
  call call_save a = (save_to_eeprom bridge a).1
  call (call_setpoint raw) a = (set_setpoint bridge raw a).1

  abbrev pub calls : List Call → Axis D → Axis D
  calls [] a = a
  calls (c ∷ cs) a = calls cs (call c a)

  call-IsDown : (c : Call) (a : Axis D) → starts c ≡ false → IsDown a → IsDown (call c a)
  unfolding IsDown hold_axis disable set_float save_to_eeprom set_setpoint advance_phase_locked
      send_setpoint
  call-IsDown call_enable a n h = absurd (true≢false n)
  call-IsDown call_recover a n h = absurd (true≢false n)
  call-IsDown call_hold a n h = ground arith
  call-IsDown call_disable a n h = ground arith
  call-IsDown call_spin a n h =
      let f = spin_fields bridge a in rw (f.0, f.2, f.3, h.0) (ground (arith, h))
  call-IsDown call_float a n h = h
  call-IsDown call_save a n h = h
  call-IsDown (call_setpoint raw) a n h = h

  calls-IsDown :
      (cs : List Call) (a : Axis D) → starts_none cs ≡ true → IsDown a → IsDown (calls cs a)
  calls-IsDown [] a none h = h
  calls-IsDown (c ∷ cs) a none h =
      calls-IsDown cs (call c a) (ground arith) (call-IsDown c a (ground arith) h)

  -- After `hold` or `disable`, calls other than `enable` and `recover` never enable the axis again,
  -- and it goes on with the control word of Hold or Disabled.
  pub calls-stopped :
      (cs : List Call) (a : Axis D)
      → starts_none cs ≡ true
      → let h = calls cs (hold_axis a) in
        let d = calls cs (disable a) in
        (h.enabled ≡ false)
        × (d.enabled ≡ false)
        × ((h.current_cw ≡ Cw.hold) ⊎ (h.current_cw ≡ Cw.disabled))
        × ((d.current_cw ≡ Cw.hold) ⊎ (d.current_cw ≡ Cw.disabled))
  unfolding IsDown hold_axis disable
  calls-stopped cs a none =
      let h = calls-IsDown cs (hold_axis a) none (refl, refl, inl refl) in
      let d = calls-IsDown cs (disable a) none (refl, refl, inr refl) in (h.1, d.1, h.2, d.2)
