-- ===== src/Devices/Remote/Order.antt =====
-- The values of an axis: their range, their extremes and their order.
use ros2_canopen.Base.{ℕ, suc, ◌+◌, ◌-◌, ◌*◌, ◌<◌, ◌≤◌, ◌≡◌, ◌⊎◌, inl, inr, arith, false}
use native.Mathlib.Nat.{mul-le-mul_right}
use ros2_canopen.Base.Int.{pos, negsuc, pos_part, neg_part}
use ros2_canopen.Devices.Remote.{AxisSpec, Ratio, minus, zero_ratio, normalize}

-- From -1 to 1, without a division by 0.
abbrev pub IsNormal : Ratio → Type 0
IsNormal q = (0 < q.denominator) × (pos_part q.numerator + neg_part q.numerator ≤ q.denominator)

-- The value of an axis is always from -1 to 1, and never a quotient by 0, for all bytes.
pub normalize-IsNormal :
    (raw : ℕ) (axis : AxisSpec) → raw < 256 → axis.center < 256 → IsNormal (normalize raw axis)
unfolding normalize
normalize-IsNormal raw axis h k = (ground arith, ground arith)

-- The three shapes of a value of an axis that is not inverted.
abbrev IsShaped : ℕ → AxisSpec → Ratio → Type 0
IsShaped raw axis q =
    ((raw ≤ axis.center + axis.deadband) × (axis.center ≤ raw + axis.deadband) × (q ≡ zero_ratio))
    ⊎ (((axis.center + axis.deadband < raw)
          × (q ≡ record { numerator = pos (raw - axis.center); denominator = 255 - axis.center }))
        ⊎ ((raw + axis.deadband < axis.center)
            × (q ≡ record {
              numerator = negsuc (axis.center - raw - 1);
              denominator = axis.center;
            })))

normalize-IsShaped :
    (raw : ℕ) (axis : AxisSpec)
    → raw < 256
    → axis.center < 256
    → axis.invert ≡ false
    → IsShaped raw axis (normalize raw axis)
unfolding normalize
normalize-IsShaped raw axis h k e = ground (arith, e)

-- The order of the quotients, by their cross products.
infix 50 ◌≤q◌
abbrev pub ◌≤q◌ : Ratio → Ratio → Type 0
p ≤q q =
    pos_part p.numerator * q.denominator + neg_part q.numerator * p.denominator
    ≤ pos_part q.numerator * p.denominator + neg_part p.numerator * q.denominator

shaped_order :
    (a b : ℕ) (axis : AxisSpec) (p q : Ratio)
    → a ≤ b
    → IsShaped a axis p
    → IsShaped b axis q
    → p ≤q q
shaped_order a b axis p q le (inl (u, v, e)) (inl (x, y, f)) = rw (e, f) (omega arith)
shaped_order a b axis p q le (inl (u, v, e)) (inr (inl (x, f))) = rw (e, f) (omega arith)
shaped_order a b axis p q le (inl (u, v, e)) (inr (inr (x, f))) = absurd (omega arith)
shaped_order a b axis p q le (inr (inl (u, e))) (inl (x, y, f)) = absurd (omega arith)
shaped_order a b axis p q le (inr (inl (u, e))) (inr (inl (x, f))) =
    rw (e, f)
      (omega (
        arith,
        mul-le-mul_right {m = a - axis.center} {n = b - axis.center} (255 - axis.center)
            (omega arith),
      ))
shaped_order a b axis p q le (inr (inl (u, e))) (inr (inr (x, f))) = absurd (omega arith)
shaped_order a b axis p q le (inr (inr (u, e))) (inl (x, y, f)) = rw (e, f) (omega arith)
shaped_order a b axis p q le (inr (inr (u, e))) (inr (inl (x, f))) = rw (e, f) (omega arith)
shaped_order a b axis p q le (inr (inr (u, e))) (inr (inr (x, f))) =
    rw (e, f)
      (omega (
        arith,
        mul-le-mul_right {m = suc (axis.center - b - 1)} {n = suc (axis.center - a - 1)} axis.center
            (omega arith),
      ))

-- The value of an axis that is not inverted, for any rest position and deadband: it is from -1 to 1 and
-- no quotient by 0; a byte that is not smaller gives a value that is not smaller; and beyond the
-- deadband the greatest byte gives exactly 1 and the byte 0 exactly -1.
pub normalize_order :
    (raw raw' : ℕ) (axis : AxisSpec)
    → raw ≤ raw'
    → raw' < 256
    → axis.center < 256
    → axis.invert ≡ false
    → IsNormal (normalize raw axis)
      × (normalize raw axis ≤q normalize raw' axis)
      × ((255 ≤ axis.center + axis.deadband)
          ⊎ ((normalize 255 axis).numerator ≡ pos (normalize 255 axis).denominator))
      × ((axis.center ≤ axis.deadband)
          ⊎ ((normalize 0 axis).numerator ≡ minus 0 (normalize 0 axis).denominator))
unfolding normalize
normalize_order raw raw' axis le h k e = (
  normalize-IsNormal raw axis (omega arith) k,
  shaped_order raw raw' axis (normalize raw axis) (normalize raw' axis) le
      (normalize-IsShaped raw axis (omega arith) k e) (normalize-IsShaped raw' axis h k e),
  ground (arith, e),
  ground (arith, e),
)
