-- ===== src/Cia402/Mode/Target.antt =====
-- Targets of the modes: canopen_402_driver/include/canopen_402_driver/mode_target_helper.hpp.
use ros2_canopen.Base.{Bool, true, false, if◌then◌else◌, ◌≡◌, inl, inr, ◌⊎◌, arith, refl}
use ros2_canopen.Base.Int.{ℤ, ◌≤ℤ◌}
use ros2_canopen.Cia402.Driver.{Cast, fits, negative_overflow, positive_overflow, bad_cast, Doubles}

-- `ModeTargetHelper<T>`, with the limits of `T`.
pub record Target : Type 0 where
  pub lowest : ℤ
  pub highest : ℤ
  pub target : ℤ
  pub has_target : Bool

abbrev pub with_target : Target → ℤ → Target × Bool
with_target t v = (record t { target = v; has_target = true }, true)

abbrev pub on_cast : Target → Cast → Target × Bool
on_cast t (fits v) = with_target t v
on_cast t negative_overflow = with_target t t.lowest
on_cast t positive_overflow = with_target t t.highest
on_cast t bad_cast = (t, false)

unfoldable pub start : Target → Target × Bool
start t = (record t { has_target = false }, true)

-- A target is in the range of its type.
abbrev pub InRange : Target → Type 0
InRange t = (t.lowest ≤ℤ t.target) × (t.target ≤ℤ t.highest)

-- What `setTarget` does with a value that is a NaN or not, and with its cast.
abbrev pub Outcome : Target → Bool → Cast → Target × Bool → Type 0
Outcome t nan cast (t', taken) =
    ((taken ≡ true)
      × (nan ≡ false)
      × (t'.has_target ≡ true)
      × InRange t'
      × ((cast ≡ fits t'.target)
          ⊎ ((cast ≡ negative_overflow) × (t'.target ≡ t.lowest))
          ⊎ ((cast ≡ positive_overflow) × (t'.target ≡ t.highest))))
    ⊎ ((taken ≡ false) × (t' ≡ t) × ((nan ≡ true) ⊎ (cast ≡ bad_cast)))

on_cast-Outcome :
    (t : Target) (nan : Bool) (cast : Cast)
    → t.lowest ≤ℤ t.highest
    → ((v : ℤ) → cast ≡ fits v → (t.lowest ≤ℤ v) × (v ≤ℤ t.highest))
    → Outcome t nan cast (if nan then (t, false) else on_cast t cast)
on_cast-Outcome t true cast h law = inr (refl, refl, inl refl)
on_cast-Outcome t false (fits v) h law = inl (refl, refl, refl, law v refl, inl refl)
on_cast-Outcome t false negative_overflow h law =
    inl (refl, refl, refl, (omega arith, h), inr (inl (refl, refl)))
on_cast-Outcome t false positive_overflow h law =
    inl (refl, refl, refl, (h, omega arith), inr (inr (refl, refl)))
on_cast-Outcome t false bad_cast h law = inr (refl, refl, inr refl)

module _ (doubles : Doubles) where
  unfoldable pub set_target : Target → doubles.Double → Target × Bool
  set_target t val =
      if doubles.is_nan val
      then (t, false)
      else on_cast t (doubles.numeric_cast t.lowest t.highest val)

  -- If boost's cast only yields values of the target type, then on every path `setTarget` either
  -- takes a target, which is the cast value or the limit on the side of the overflow and lies in
  -- the type's range, or it refuses, for a NaN or a failed cast, and leaves the mode as it was.
  pub set_target-Outcome :
      (t : Target) (val : doubles.Double)
      → t.lowest ≤ℤ t.highest
      → ((v : ℤ)
          → doubles.numeric_cast t.lowest t.highest val ≡ fits v
          → (t.lowest ≤ℤ v) × (v ≤ℤ t.highest))
      → Outcome t
          (doubles.is_nan val)
          (doubles.numeric_cast t.lowest t.highest val)
          (set_target t val)
  unfolding set_target
  set_target-Outcome t val h law =
      on_cast-Outcome t (doubles.is_nan val) (doubles.numeric_cast t.lowest t.highest val) h law
