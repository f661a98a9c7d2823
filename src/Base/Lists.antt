-- ===== src/Base/Lists.antt =====
-- Lists measured by native numbers, and association lists keyed by numbers.
use Prim.Native.Nat.{ℕ, suc, ◌+◌}
use mathlib.Core.Path.{◌≡◌}
use mathlib.Core.Bool.{Bool, true, false}
use mathlib.Core.List.{List, [], ◌∷◌, ◌++◌}
use mathlib.Core.Option.{Option, none, some}
use native.Mathlib.Omega.{arith}
use ros2_canopen.Base.Tests.{◌==◌, if◌then◌else◌}

module _ {ℓ} {A : Type ℓ} where
  abbrev pub length : List A → ℕ
  length [] = 0
  length (x ∷ xs) = suc (length xs)

  pub length-append : (xs ys : List A) → length (xs ++ ys) ≡ length xs + length ys
  length-append [] ys = omega arith
  length-append (x ∷ xs) ys = omega (arith, length-append xs ys)

  -- `find` of a map keyed by numbers.
  unfoldable pub find : ℕ → List (ℕ × A) → Option A
  find k [] = none
  find k ((j, v) ∷ m) = if j == k then some v else find k m

  -- `insert` and `emplace` of a map: an entry that is there stays.
  unfoldable pub insert : ℕ → A → List (ℕ × A) → List (ℕ × A)
  insert k v [] = (k, v) ∷ []
  insert k v ((j, w) ∷ m) = if j == k then (j, w) ∷ m else (j, w) ∷ insert k v m

  -- A write through the pointer that the map holds under `k`.
  unfoldable pub store : ℕ → A → List (ℕ × A) → List (ℕ × A)
  store k v [] = []
  store k v ((j, w) ∷ m) = if j == k then (j, v) ∷ m else (j, w) ∷ store k v m

  abbrev pub or_else : Option A → Option A → Option A
  or_else none b = b
  or_else (some a) b = some a

  pub find-insert :
      (k j : ℕ) (v : A) (m : List (ℕ × A))
      → find j (insert k v m) ≡ or_else (find j m) (if k == j then some v else none)
  unfolding find insert
  find-insert k j v [] = ground arith
  find-insert k j v ((i, w) ∷ m) = ground (arith, find-insert k j v m)

  abbrev pub is_some : Option A → Bool
  is_some none = false
  is_some (some a) = true

  pub find-store :
      (k j : ℕ) (v : A) (m : List (ℕ × A))
      → find j (store k v m)
        ≡ (if k == j then (if is_some (find j m) then some v else none) else find j m)
  unfolding find store
  find-store k j v [] = ground arith
  find-store k j v ((i, w) ∷ m) = ground (arith, find-store k j v m)

  -- `m[k] = v` of a map: an entry that is there is overwritten.
  unfoldable pub assign : ℕ → A → List (ℕ × A) → List (ℕ × A)
  assign k v [] = (k, v) ∷ []
  assign k v ((j, w) ∷ m) = if j == k then (j, v) ∷ m else (j, w) ∷ assign k v m

  pub find-assign :
      (k j : ℕ) (v : A) (m : List (ℕ × A))
      → find j (assign k v m) ≡ (if k == j then some v else find j m)
  unfolding find assign
  find-assign k j v [] = ground arith
  find-assign k j v ((i, w) ∷ m) = ground (arith, find-assign k j v m)
