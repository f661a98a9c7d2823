-- ===== src/Base/Loops.antt =====
-- Repeated steps.
use Prim.Native.Nat.{ℕ, zero, suc, ◌<◌}
use mathlib.Core.Path.{◌≡◌, refl}
use mathlib.Core.Logic.{◌⊎◌, inl, inr}
use mathlib.Core.Bool.{Bool, true, false, ◌||◌}
use native.Mathlib.Omega.{arith}
use ros2_canopen.Base.Tests.{Bool-cases}

-- The state after `k` steps.
abbrev pub iterate {ℓ} : {W : Type ℓ} → (W → W) → ℕ → W → W
iterate step zero w = w
iterate step (suc k) w = iterate step k (step w)

-- `for (i = 0; i < n; i++) body(i);`
unfoldable pub for_below {ℓ} : {W : Type ℓ} → ℕ → (ℕ → W → W) → W → W
for_below zero body w = w
for_below (suc n) body w = body n (for_below n body w)

-- `for (i = 0; i < n; i++) if (test(i)) return true; return false;`
unfoldable pub any_below : ℕ → (ℕ → Bool) → Bool
any_below zero test = false
any_below (suc n) test = test n || any_below n test

-- What a loop of tests answers: true with an index that passes, or false where none does.
pub any_below_lem :
    (n : ℕ) (test : ℕ → Bool)
    → ((any_below n test ≡ true) × ((i : ℕ) × (i < n) × (test i ≡ true)))
      ⊎ ((any_below n test ≡ false) × ((i : ℕ) → i < n → test i ≡ false))
unfolding any_below
any_below_lem zero test = inr (refl, λ i lt. absurd (omega arith))
any_below_lem (suc n) test = elim (Bool-cases (test n)) [
  | inl e ↦ inl (rw e refl, (n, omega arith, e))
  | inr e ↦ elim (any_below_lem n test) [
    | inl (any, (i, lt, pass)) ↦ inl (rw (e, any) refl, (i, omega arith, pass))
    | inr (any, all) ↦ inr (rw (e, any) refl, λ i lt. ground (arith, e, all i))
  ]
]
