-- ===== src/Base/Bits.antt =====
-- The bits of unsigned words: `(w >> i) & 1`, masks, and the bitwise operations at variables.
use Prim.Native.Nat.{
  ℕ, zero, suc, ◌+◌, ◌-◌, ◌*◌, ◌/◌, ◌%◌, ◌^◌, ◌≤◌, ◌<◌, min, max, bit_and, bit_or, digits, bitwise,
  bit_and-bitwise, bit_or-bitwise,
}
use mathlib.Core.Path.{◌≡◌, refl, ap}
use mathlib.Core.Bool.{Bool, true, not, ◌&&◌}
use native.Mathlib.Omega.{arith}
use native.Mathlib.Nat.{le_refl, pow-suc, one-le-pow}
use ros2_canopen.Base.Tests.{◌==◌}

-- `(w >> i) & 1U`
unfoldable pub bit : ℕ → ℕ → ℕ
bit w zero = w % 2
bit w (suc i) = bit (w / 2) i

-- `w & mask` under an `if`
unfoldable pub has_any : ℕ → ℕ → Bool
has_any w mask = not (bit_and w mask == 0)

-- `~w` cut to a uint16_t
abbrev pub complement16 : ℕ → ℕ
complement16 w = 65535 - w

-- The native operations go by a recursion with fuel; these are the equations without it, which
-- split off the lowest bit.
module _ (z : ℕ → ℕ) (f : ℕ → ℕ → ℕ) where
  at_zero : (b n m : ℕ) → digits z f m zero b ≡ digits z f n zero b
  at_zero b zero zero = refl
  at_zero b zero (suc m) = refl
  at_zero b (suc n) zero = refl
  at_zero b (suc n) (suc m) = refl

  enough_fuel : (a b n m : ℕ) → a ≤ min n m → digits z f m a b ≡ digits z f n a b
  enough_fuel zero b n m le = at_zero b n m
  enough_fuel (suc a) b zero m le = absurd (omega arith)
  enough_fuel (suc a) b (suc n) zero le = absurd (omega arith)
  enough_fuel (suc a) b (suc n) (suc m) le =
      omega (arith, enough_fuel (suc a / 2) (b / 2) n m (omega arith))

  low_bit :
      (a b : ℕ)
      → bitwise z f (suc a) b ≡ f (suc a % 2) (b % 2) + 2 * bitwise z f (suc a / 2) (b / 2)
  low_bit a b = omega (arith, enough_fuel (suc a / 2) (b / 2) a (suc a / 2) (omega arith))

pub bit_and_low : (a b : ℕ) → bit_and a b ≡ min (a % 2) (b % 2) + 2 * bit_and (a / 2) (b / 2)
bit_and_low zero b = simp bit_and-bitwise (omega arith)
bit_and_low (suc a) b = simp bit_and-bitwise (low_bit (λ y. 0) min a b)

pub bit_or_low : (a b : ℕ) → bit_or a b ≡ max (a % 2) (b % 2) + 2 * bit_or (a / 2) (b / 2)
bit_or_low zero b = simp bit_or-bitwise (omega arith)
bit_or_low (suc a) b = simp bit_or-bitwise (low_bit (λ y. y) max a b)

half-bit_or : (a b : ℕ) → bit_or a b / 2 ≡ bit_or (a / 2) (b / 2)
half-bit_or a b = omega (arith, bit_or_low a b)

half-bit_and : (a b : ℕ) → bit_and a b / 2 ≡ bit_and (a / 2) (b / 2)
half-bit_and a b = omega (arith, bit_and_low a b)

pub bit-bit_or : (i a b : ℕ) → bit (bit_or a b) i ≡ max (bit a i) (bit b i)
unfolding bit
bit-bit_or zero a b = omega (arith, bit_or_low a b)
bit-bit_or (suc i) a b = rw (half-bit_or a b) (bit-bit_or i (a / 2) (b / 2))

pub bit-bit_and : (i a b : ℕ) → bit (bit_and a b) i ≡ min (bit a i) (bit b i)
unfolding bit
bit-bit_and zero a b = omega (arith, bit_and_low a b)
bit-bit_and (suc i) a b = rw (half-bit_and a b) (bit-bit_and i (a / 2) (b / 2))

pub bit-le-one : (i a : ℕ) → bit a i ≤ 1
unfolding bit
bit-le-one zero a = omega arith
bit-le-one (suc i) a = bit-le-one i (a / 2)

bit_and-zero_below : (n a : ℕ) → a ≤ n → bit_and a 0 ≡ 0
bit_and-zero_below n zero h = refl
bit_and-zero_below zero (suc a) h = absurd (omega arith)
bit_and-zero_below (suc n) (suc a) h =
    omega (arith, bit_and_low (suc a) 0, bit_and-zero_below n (suc a / 2) (omega arith))

pub bit_and-zero : (a : ℕ) → bit_and a 0 ≡ 0
bit_and-zero a = bit_and-zero_below a a (le_refl a)

pub half_pow : (i : ℕ) → 2 ^ suc i / 2 ≡ 2 ^ i
half_pow i = omega (arith, pow-suc 2 i)

-- A mask with one bit picks that bit.
pub bit_and-pow : (i a : ℕ) → bit_and a (2 ^ i) ≡ bit a i * 2 ^ i
unfolding bit
bit_and-pow zero a = omega (arith, bit_and_low a 1, bit_and-zero (a / 2))
bit_and-pow (suc i) a = omega (
  arith,
  bit_and_low a (2 ^ suc i),
  pow-suc 2 i,
  bit_and-pow i (a / 2),
  ap (λ (t : ℕ). bit_and (a / 2) t) (half_pow i),
  ap (λ (t : ℕ). bit (a / 2) i * t) (pow-suc 2 i),
)

pub has_any-pow : (i a : ℕ) → has_any a (2 ^ i) ≡ (bit a i == 1)
unfolding has_any
has_any-pow i a = ground (arith, bit_and-pow i a, bit-le-one i a, one-le-pow i 2)

pub bit-zero : (i : ℕ) → bit 0 i ≡ 0
unfolding bit
bit-zero zero = refl
bit-zero (suc i) = bit-zero i

-- `|` of constant masks.
infixl 65 ◌or◌
abbrev pub ◌or◌ : ℕ → ℕ → ℕ
a or b = bit_or a b

-- A test over a small range, by evaluation.
unfoldable pub holds_below : (ℕ → Bool) → ℕ → Bool
holds_below test zero = true
holds_below test (suc k) = test k && holds_below test k

pub holds_below_lem :
    (test : ℕ → Bool) (i k : ℕ) → i < k → holds_below test k ≡ true → test i ≡ true
unfolding holds_below
holds_below_lem test i zero lt e = absurd (omega arith)
holds_below_lem test i (suc k) lt e = ground (arith, holds_below_lem test i k)

half_complement : (k w : ℕ) → w < 2 ^ suc k → (2 ^ suc k - 1 - w) / 2 ≡ 2 ^ k - 1 - w / 2
half_complement k w h = omega (arith, pow-suc 2 k)

-- The complement flips each of the low bits.
bit-complement : (k i w : ℕ) → w < 2 ^ k → i < k → bit (2 ^ k - 1 - w) i ≡ 1 - bit w i
unfolding bit
bit-complement zero i w h lt = absurd (omega arith)
bit-complement (suc k) zero w h lt = omega (arith, pow-suc 2 k)
bit-complement (suc k) (suc i) w h lt = omega (
  arith,
  pow-suc 2 k,
  bit-complement k i (w / 2) (omega (arith, pow-suc 2 k)) (omega arith),
  ap (λ (t : ℕ). bit t i) (half_complement k w h),
)

pub bit-complement16 : (i w : ℕ) → w < 65536 → i < 16 → bit (complement16 w) i ≡ 1 - bit w i
bit-complement16 i w h lt = bit-complement 16 i w h lt
