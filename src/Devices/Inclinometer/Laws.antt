-- ===== src/Devices/Inclinometer/Laws.antt =====
-- What the inclinometer's settings write to the device.
use ros2_canopen.Base.{
  ℕ, ◌==◌, ◌≡◌, ◌⊎◌, inl, inr, refl, arith, false, if◌then◌else◌, none, some, Bool-cases,
  Option-cases,
}
use ros2_canopen.Base.Int.{ℤ, pos, negsuc, ◌≤ℤ◌}
use ros2_canopen.Devices.Inclinometer.{Bridge, Inclinometer, int16, caught, write_preset_or_offset}

int16_in_range : (z : ℤ) → negsuc 32767 ≤ℤ z → z ≤ℤ pos 32767 → int16 z ≡ z
int16_in_range (pos n) h k = ground arith
int16_in_range (negsuc n) h k = ground arith

module _ {F D : Type 0} (bridge : Bridge D) where
  -- A preset or an offset that 16 bits hold: without a driver or with the index 0 nothing is written
  -- and the result is false; else the device gets the value itself, in 16 bits or in 32 as the
  -- configuration tells, and the result is the device's, false where the write throws.
  pub write_preset_or_offset_lem :
      (index bits : ℕ) (raw : ℤ) (s : Inclinometer F D)
      → negsuc 32767 ≤ℤ raw
      → raw ≤ℤ pos 32767
      → let r = write_preset_or_offset bridge index raw bits s in
        ((s.driver ≡ none) × (r ≡ (false, s)))
        ⊎ ((d : D) × (s.driver ≡ some d)
            × (((index ≡ 0) × (r ≡ (false, s)))
                ⊎ (let w =
                      if bits == 16
                      then bridge.write_int16 index raw d
                      else bridge.write_int32 index raw d in
                    (r.0 ≡ caught w.0) × (r.1.driver ≡ some w.1))))
  unfolding write_preset_or_offset
  write_preset_or_offset_lem index bits raw s h k = elim (Option-cases s.driver) [
    | inl e ↦ inl (e, rw e refl)
    | inr (d, e) ↦ elim (Bool-cases (index == 0)) [
      | inl z ↦ inr (d, e, inl (ground (arith, z), rw (e, z) refl))
      | inr z ↦ inr (
        d,
        e,
        inr (rw (e, z, int16_in_range raw h k) refl, rw (e, z, int16_in_range raw h k) refl),
      )
    ]
  ]
