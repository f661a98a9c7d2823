-- ===== src/Cia402/State/Wait.antt =====
-- What `State402::waitForNewState` (canopen_402_driver/src/state.cpp) returns.
use ros2_canopen.Base.{ℕ, zero, suc, ◌-◌, ◌≤◌, ◌<◌, ◌≡◌, ◌≢◌, ◌⊎◌, true, false, arith, iterate}
use ros2_canopen.Cia402.State.{InternalState, same_state_cases, wait_for_new_state}

module _ {W : Type 0} (look : W → InternalState) (tick : W → W) where
  -- The wait ends at the first tick after which another state is seen, if that comes before the
  -- deadline of `n` ticks: it reports the change, the new state and the ticks that are left.
  pub wait_first_change :
      (old : InternalState) (n k : ℕ) (w : W)
      → k ≤ n
      → ((j : ℕ) → j < k → look (iterate tick j w) ≡ old)
      → look (iterate tick k w) ≢ old
      → wait_for_new_state look tick old n w ≡ record {
        changed = true;
        state = look (iterate tick k w);
        left = n - k;
        world = iterate tick k w;
      }
  unfolding wait_for_new_state
  wait_first_change old zero zero w h same other =
      ground (arith, same_state_cases (look w) old, same_state_cases old (look w))
  wait_first_change old zero (suc k) w h same other = absurd (omega arith)
  wait_first_change old (suc n) zero w h same other =
      ground (arith, same_state_cases (look w) old, same_state_cases old (look w))
  wait_first_change old (suc n) (suc k) w h same other = ground (
    arith,
    same 0,
    same_state_cases (look w) old,
    wait_first_change old n k (tick w) (omega arith) (λ j lt. same (suc j) (omega arith)) other,
  )

  -- If no tick up to the deadline shows another state, the wait reports no change.
  pub wait_no_change :
      (old : InternalState) (n : ℕ) (w : W)
      → ((j : ℕ) → j ≤ n → look (iterate tick j w) ≡ old)
      → wait_for_new_state look tick old n w
        ≡ record { changed = false; state = old; left = 0; world = iterate tick n w }
  unfolding wait_for_new_state
  wait_no_change old zero w same =
      ground (arith, same 0, same_state_cases (look w) old, same_state_cases old (look w))
  wait_no_change old (suc n) w same = ground (
    arith,
    same 0,
    same_state_cases (look w) old,
    wait_no_change old n (tick w) (λ j lt. same (suc j) (omega arith)),
  )

  -- However long the wait and whatever happens: it has no more ticks left than it was given, the
  -- state that it hands back is the one seen at its end, and it reports a change exactly if that
  -- differs from the old state.
  pub wait_sound :
      (old : InternalState) (n : ℕ) (w : W)
      → let r = wait_for_new_state look tick old n w in
        (r.left ≤ n)
        × (r.state ≡ look r.world)
        × (((r.changed ≡ true) × (r.state ≢ old)) ⊎ ((r.changed ≡ false) × (r.state ≡ old)))
  unfolding wait_for_new_state
  wait_sound old zero w = ground (arith, same_state_cases old (look w))
  wait_sound old (suc n) w =
      ground (arith, same_state_cases (look w) old, wait_sound old n (tick w))
