-- ===== src/Cia402/Motor/Switch/Enable.antt =====
-- `Motor402::switchState` brings a drive that follows its commands to Operation_Enable
-- (canopen_402_driver/src/motor.cpp).
use ros2_canopen.Base.{
  iterate, ℕ, zero, suc, ◌-◌, ◌*◌, ◌≤◌, ◌<◌, ◌≡◌, ◌≢◌, refl, sym, ◌∙◌, arith, Bool, true, Option,
  some, ap,
}
use mathlib.Core.Bool.{false≢true}
use ros2_canopen.Cia402.State.{
  InternalState, operation_enable, unknown, same_state_eq, wait_for_new_state,
}
use ros2_canopen.Cia402.State.Wait.{wait_first_change}
use ros2_canopen.Cia402.Command.{set_transition, next_state_for_enabling, apply}
use ros2_canopen.Cia402.Command.Table.{
  Encodes, op_of, enabling_request, apply-Encodes, set_transition_towards, hops, hops-enabling,
}
use ros2_canopen.Cia402.Motor.{World, get_state}
use ros2_canopen.Cia402.Motor.Switch.{switch_loop, switch_state, set_control_word, set_target_state}
use ros2_canopen.Cia402.Motor.Switch.Laws.{switch_loop_cases}

hops-zero : (s : InternalState) → hops s ≡ 0 → s ≡ operation_enable
unfolding hops
hops-zero s h = ground arith

hops-pos : (s : InternalState) {n : ℕ} → hops s ≡ suc n → s ≢ operation_enable
unfolding hops
hops-pos s h e = ground arith

ne_hop : (s : InternalState) → s ≢ operation_enable → next_state_for_enabling s ≢ s
ne_hop s ne e = suc_ne (hops s) (hops-enabling s ne ∙ ap (λ q. suc (hops q)) e)
  where
    suc_ne : (k : ℕ) → k ≡ suc k → ⊥
    suc_ne k e = omega arith

set_transition-hop :
    (cw : ℕ) (s ts : InternalState)
    → ts ≡ operation_enable
    → s ≢ operation_enable
    → set_transition cw s ts (some unknown) ≡ record {
      success = true;
      cw = apply (op_of (enabling_request s)) cw;
      next = some (next_state_for_enabling s);
    }
set_transition-hop cw s ts t ne = rw t (set_transition_towards cw s unknown ne)

ticks_left : (n d k ticks : ℕ) → k ≤ d → suc n * d ≤ ticks → n * d ≤ ticks - k
ticks_left n d k ticks le b = grind arith

-- The drive and the polling of it, at work between two wake-ups, answer the command of the next
-- hop within `d` ticks: the next change of state that is seen is that hop. `P` is what the drive
-- needs for it, such as power; the control word is the caller's to write.
pub record Follows {D : Type 0} (tick : World D → World D) (P : World D → Type 0) (d : ℕ)
    : Type 0 where
  pub keeps : (cw : ℕ) (w : World D) → P w → P (set_control_word cw w)
  pub retargets : (s : InternalState) (w : World D) → P w → P (set_target_state s w)
  pub responds :
      (w : World D)
      → P w
      → w.motor.target_state ≡ operation_enable
      → get_state w ≢ operation_enable
      → Encodes (enabling_request (get_state w)) w.motor.control_word
      → (k : ℕ) × (k ≤ d)
        × ((j : ℕ) → j < k → get_state (iterate tick j w) ≡ get_state w)
        × (get_state (iterate tick k w) ≡ next_state_for_enabling (get_state w))
        × P (iterate tick k w)
        × ((iterate tick k w).motor.target_state ≡ operation_enable)

module _ {D : Type 0} (tick : World D → World D) (P : World D → Type 0) (d : ℕ)
    (follows : Follows tick P d) where
  abbrev Enabled : Option (Bool × World D) → Type 0
  Enabled o = (w' : World D) × (o ≡ some (true, w')) × (get_state w' ≡ operation_enable) × P w'

  enable_loop :
      (n fuel ticks : ℕ) (w : World D)
      → hops (get_state w) ≡ n
      → n < fuel
      → n * d ≤ ticks
      → w.motor.target_state ≡ operation_enable
      → P w
      → Enabled (switch_loop tick fuel operation_enable ticks (get_state w) w)
  enable_loop n zero ticks w h f b t p = absurd (omega arith)
  enable_loop zero (suc fuel) ticks w h f b t p =
      let here = hops-zero (get_state w) h in
      switch_loop_cases tick Enabled fuel operation_enable ticks (get_state w) w
        (λ _.
          (w, ap (λ b. some (b, w)) (same_state_eq (get_state w) operation_enable here), here, p))
        (λ ne _. absurd (ne (here ∙ sym t))) (λ ne _ _. absurd (ne (here ∙ sym t)))
        (λ ne _ _. absurd (ne (here ∙ sym t)))
  enable_loop (suc n) (suc fuel) ticks w h f b t p =
      let s = get_state w in
      let ne = hops-pos s h in
      let cw = w.motor.control_word in
      let cw' = apply (op_of (enabling_request s)) cw in
      let w1 = set_control_word cw' w in
      let (k, le, same, hop, p', t') =
        follows.responds w1 (follows.keeps cw' w p) t ne (apply-Encodes (enabling_request s) cw) in
      let set = set_transition-hop cw s w.motor.target_state t ne in
      let waited =
        wait_first_change get_state tick s ticks k w1 (omega arith) same
          (λ e. ne_hop s ne (sym hop ∙ e)) in
      switch_loop_cases tick Enabled fuel operation_enable ticks s w (λ e. absurd (ne (e ∙ t)))
        (λ _ bad. absurd (false≢true (sym bad ∙ ap (λ r. r.success) set)))
        (λ _ _ late. absurd (
          false≢true (
            sym late
            ∙ ap
                (λ r. (wait_for_new_state get_state tick s ticks (set_control_word r.cw w)).changed)
                set
            ∙ ap (λ r. r.changed) waited)))
        λ _ _ _.
          rw (set, waited)
            (enable_loop n fuel (ticks - k) (iterate tick k w1)
              (omega (arith, ap hops hop, hops-enabling s ne, h)) (omega arith)
              (ticks_left n d k ticks le b) t' p')

  -- If the drive answers each command within `d` ticks and the timeout is at least `d` ticks for
  -- every hop that is left, `switchState` returns true from every state, faults included, with the
  -- drive in Operation_Enable.
  pub switch_state-Enabled :
      (timeout : ℕ) (w : World D)
      → hops (get_state w) ≤ timeout
      → hops (get_state w) * d ≤ timeout
      → P w
      → ((switch_state tick timeout operation_enable w).0 ≡ true)
        × (get_state (switch_state tick timeout operation_enable w).1 ≡ operation_enable)
        × P (switch_state tick timeout operation_enable w).1
  unfolding switch_state
  switch_state-Enabled timeout w few enough p =
      let w0 = set_target_state operation_enable w in
      let (w', e, here, p') =
        enable_loop (hops (get_state w)) (suc timeout) timeout w0 refl (omega arith) enough refl
          (follows.retargets operation_enable w p) in
      rw e (refl, here, p')
