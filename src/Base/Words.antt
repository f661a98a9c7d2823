-- ===== src/Base/Words.antt =====
-- The bits of a single power of two, of what does not fit 16 bits, and of set and cleared bits.
use Prim.Native.Nat.{ℕ, zero, suc, ◌/◌, ◌^◌, ◌≤◌, ◌<◌, bit_and, bit_or, bit_and-bitwise}
use mathlib.Core.Path.{◌≡◌, refl, ap, ◌∙◌}
use mathlib.Core.Logic.{◌≢◌}
use native.Mathlib.Omega.{arith}
use native.Mathlib.Nat.{le_refl, pow-suc, one-le-pow, pow-le-pow_right}
use ros2_canopen.Base.Tests.{◌==◌, leb, if◌then◌else◌}
use ros2_canopen.Base.Bits.{
  bit, complement16, bit_and_low, bit-bit_or, bit-bit_and, bit-le-one, bit-zero, bit-complement16,
  half_pow,
}

bit_and_bounded : (n a b : ℕ) → a ≤ n → bit_and a b ≤ a
bit_and_bounded n zero b h = omega (arith, bit_and-bitwise 0 b)
bit_and_bounded zero (suc a) b h = absurd (omega arith)
bit_and_bounded (suc n) (suc a) b h =
    omega (arith, bit_and_low (suc a) b, bit_and_bounded n (suc a / 2) (b / 2) (omega arith))

pub bit_and-le : (a b : ℕ) → bit_and a b ≤ a
bit_and-le a b = bit_and_bounded a a b (le_refl a)

pub bit-pow_other : (i k : ℕ) → i ≢ k → bit (2 ^ k) i ≡ 0
unfolding bit
bit-pow_other zero zero n = absurd (n refl)
bit-pow_other zero (suc k) n = omega (arith, pow-suc 2 k)
bit-pow_other (suc i) zero n = bit-zero i
bit-pow_other (suc i) (suc k) n =
    ap (λ (t : ℕ). bit t i) (half_pow k) ∙ bit-pow_other i k (λ e. n (ap suc e))

bit-high_of : (k i w : ℕ) → w < 2 ^ k → k ≤ i → bit w i ≡ 0
unfolding bit
bit-high_of zero zero w h le = omega arith
bit-high_of zero (suc i) w h le = bit-high_of zero i (w / 2) (omega arith) (omega arith)
bit-high_of (suc k) zero w h le = absurd (omega arith)
bit-high_of (suc k) (suc i) w h le =
    bit-high_of k i (w / 2) (omega (arith, pow-suc 2 k)) (omega arith)

pub bit-high : (i w : ℕ) → w < 65536 → 16 ≤ i → bit w i ≡ 0
bit-high i w h le = bit-high_of 16 i w h le

bit-pow_self : (i : ℕ) → bit (2 ^ i) i ≡ 1
unfolding bit
bit-pow_self zero = refl
bit-pow_self (suc i) = ap (λ (t : ℕ). bit t i) (half_pow i) ∙ bit-pow_self i

pub bit-pow : (i k : ℕ) → bit (2 ^ k) i ≡ (if k == i then 1 else 0)
bit-pow i k = ground (arith, bit-pow_self i, bit-pow_other i k)

two_pos : 0 < 2
two_pos = omega arith

pow_large : (i : ℕ) → 16 ≤ i → 65536 ≤ 2 ^ i
pow_large i h = pow-le-pow_right two_pos h

pow_small : (i : ℕ) → i < 16 → 2 ^ i < 65536
pow_small i h = omega (arith, pow-suc 2 i, one-le-pow i 2, pow-le-pow_right two_pos h)

cleared : (i k : ℕ) → 16 ≤ k → bit (complement16 (2 ^ k)) i ≡ 0
cleared i k h =
    let e : complement16 (2 ^ k) ≡ 0 = omega (arith, pow_large k h) in
    ap (λ (t : ℕ). bit t i) e ∙ bit-zero i

bit-complement_pow :
    (i k : ℕ) → k < 16 → i < 16 → bit (complement16 (2 ^ k)) i ≡ (if k == i then 0 else 1)
bit-complement_pow i k hk hi =
    ground (arith, bit-complement16 i (2 ^ k) (pow_small k hk) hi, bit-pow i k)

-- `w |= 1 << k` and `w &= ~(1 << k)` on a uint16_t.
pub bit-set_one : (i k w : ℕ) → bit (bit_or w (2 ^ k)) i ≡ (if k == i then 1 else bit w i)
bit-set_one i k w = ground (arith, bit-bit_or i w (2 ^ k), bit-pow i k, bit-le-one i w)

pub bit-clear_one :
    (i k w : ℕ)
    → bit (bit_and w (complement16 (2 ^ k))) i
      ≡ (if leb 16 i then 0 else if leb 16 k then 0 else if k == i then 0 else bit w i)
bit-clear_one i k w = ground (
  arith,
  bit-bit_and i w (complement16 (2 ^ k)),
  bit-high i (complement16 (2 ^ k)),
  cleared i k,
  bit-complement_pow i k,
  bit-le-one i w,
)
