-- ===== src/Cia402/Motor/Switch/Laws.antt =====
-- `Motor402::switchState` ends, and its success is real (canopen_402_driver/src/motor.cpp).
use ros2_canopen.Base.{
  ℕ, zero, suc, ◌<◌, ◌≡◌, ◌≢◌, ◌⊎◌, inl, inr, refl, sym, ◌∙◌, arith, Bool, true, false, Bool-cases,
  Option, some, Option-cases, ap, subst,
}
use mathlib.Core.Bool.{false≢true}
use ros2_canopen.Cia402.State.{
  InternalState, operation_enable, unknown, same_state, same_state_cases, same_state_ne,
  same_state_eq, wait_for_new_state,
}
use ros2_canopen.Cia402.State.Wait.{wait_sound}
use ros2_canopen.Cia402.Command.{set_transition, hop_for}
use ros2_canopen.Cia402.Command.Table.{set_transition_lem, coded, hops, hops-enabling}
use ros2_canopen.Cia402.Motor.{World, get_state}
use ros2_canopen.Cia402.Motor.Switch.{
  switch_loop, switch_state, set_control_word, set_target_state, value_of,
}

next-run_transition :
    (cw : ℕ) (from to : InternalState)
    → from ≢ to
    → value_of (set_transition cw from to (some unknown)).next ≡ hop_for from to (some unknown)
next-run_transition cw from to n =
    rw (set_transition_lem cw from to (some unknown) n)
      (elim (Option-cases (coded from (hop_for from to (some unknown)))) [
        | inl e ↦ rw e
        | inr (r, e) ↦ rw e
      ])

hop_ne : (from to : InternalState) → from ≢ to → from ≢ hop_for from to (some unknown)
hop_ne from to n = elim (same_state_cases to operation_enable) [
  | inl (e, p) ↦ rw e λ q.
      absurd
        (suc_ne (hops from) (hops-enabling from (λ z. n (z ∙ sym p)) ∙ ap suc (sym (ap hops q))))
  | inr (e, p) ↦ rw e n
]
  where
    suc_ne : (k : ℕ) → k ≡ suc k → ⊥
    suc_ne k e = omega arith

-- The loop goes into the wait whenever its control word could be set.
next_ne :
    (cw : ℕ) (from to : InternalState)
    → from ≢ to
    → same_state from (value_of (set_transition cw from to (some unknown)).next) ≡ false
next_ne cw from to n = rw (next-run_transition cw from to n) (same_state_ne _ _ (hop_ne from to n))

module _ {D : Type 0} (tick : World D → World D) where
  -- A wait from a state that is up to date takes at least one tick, or times out.
  wait_spends :
      (state : InternalState) (n : ℕ) (w : World D)
      → state ≡ get_state w
      → ((wait_for_new_state get_state tick state n w).changed ≡ false)
        ⊎ ((wait_for_new_state get_state tick state n w).left < n)
  unfolding wait_for_new_state
  wait_spends state zero w e = inl (rw (same_state_eq state (get_state w) e))
  wait_spends state (suc n) w e =
      rw (same_state_eq (get_state w) state (sym e))
        (inr (omega (arith, wait_sound get_state tick state n (tick w))))

  -- One round of the loop, by the ways out of it.
  pub switch_loop_cases {ℓ} :
      (P : Option (Bool × World D) → Type ℓ) (fuel : ℕ) (target : InternalState) (ticks : ℕ)
      (state : InternalState) (w : World D)
      → let ts = w.motor.target_state in
        let t = set_transition w.motor.control_word state ts (some unknown) in
        let w1 = set_control_word t.cw w in
        let r = wait_for_new_state get_state tick state ticks w1 in
        (state ≡ ts → P (some (same_state state target, w)))
        → (state ≢ ts → t.success ≡ false → P (some (false, w1)))
        → (state ≢ ts → t.success ≡ true → r.changed ≡ false → P (some (false, r.world)))
        → (state ≢ ts
            → t.success ≡ true
            → r.changed ≡ true
            → P (switch_loop tick fuel target r.left r.state r.world))
        → P (switch_loop tick (suc fuel) target ticks state w)
  unfolding switch_loop
  switch_loop_cases P fuel target ticks state w done failed timed again =
      let ts = w.motor.target_state in
      let t = set_transition w.motor.control_word state ts (some unknown) in
      let r = wait_for_new_state get_state tick state ticks (set_control_word t.cw w) in
      elim (same_state_cases state ts) [
        | inl (e, p) ↦ rw e (done p)
        | inr (e, n) ↦
            rw (e, next_ne w.motor.control_word state ts n)
              (elim (Bool-cases t.success) [
                | inr bad ↦ rw bad (failed n bad)
                | inl good ↦ rw good (elim (Bool-cases r.changed) [
                  | inr late ↦ rw late (timed n good late)
                  | inl new ↦ rw new (again n good new)
                ])
              ])
      ]

  -- The state at hand is the current one, before and after each wait.
  synced :
      (state : InternalState) (n : ℕ) (w : World D)
      → (wait_for_new_state get_state tick state n w).state
        ≡ get_state (wait_for_new_state get_state tick state n w).world
  synced state n w = (wait_sound get_state tick state n w).1

  switch_loop_total :
      (fuel : ℕ) (target : InternalState) (ticks : ℕ) (state : InternalState) (w : World D)
      → state ≡ get_state w
      → ticks < fuel
      → (r : Bool × World D) × (switch_loop tick fuel target ticks state w ≡ some r)
  switch_loop_total zero target ticks state w e h = absurd (omega arith)
  switch_loop_total (suc fuel) target ticks state w e h =
      switch_loop_cases (λ o. (r : Bool × World D) × (o ≡ some r)) fuel target ticks state w
        (λ _. (_, refl)) (λ _ _. (_, refl)) (λ _ _ _. (_, refl))
        λ n good new.
          switch_loop_total fuel target _ _ _ (synced state ticks _)
            (spent (wait_spends state ticks (set_control_word _ w) e) new)
    where
      spent : {b : Bool} {left : ℕ} → (b ≡ false) ⊎ (left < ticks) → b ≡ true → left < fuel
      spent (inl f) t = cc
      spent (inr lt) t = omega arith

  -- `switchState` returns for every timeout, target and behaviour of the other threads: the loop
  -- needs no more rounds than there are ticks until the deadline, and one.
  pub switch_state_total :
      (timeout : ℕ) (target : InternalState) (w : World D)
      → (r : Bool × World D) × (switch_loop tick
            (suc timeout)
            target
            timeout
            (get_state w)
            (set_target_state target w)
          ≡ some r)
        × (switch_state tick timeout target w ≡ r)
  unfolding switch_state
  switch_state_total timeout target w =
      let (r, e) =
        switch_loop_total (suc timeout) target timeout (get_state w) (set_target_state target w)
          refl (omega arith) in
      (r, e, rw e)

  abbrev Reached : InternalState → Option (Bool × World D) → Type 0
  Reached target o =
      (w' : World D)
      → o ≡ some (true, w')
      → (get_state w' ≡ target) × (w'.motor.target_state ≡ target)

  done-Reached :
      (target state : InternalState) (w : World D)
      → state ≡ get_state w
      → state ≡ w.motor.target_state
      → Reached target (some (same_state state target, w))
  done-Reached target state w e p w' o = elim (same_state_cases state target) [
    | inl (t, q) ↦
        let same : w ≡ w' = cc in
        (
          subst (λ v. get_state v ≡ target) same (sym e ∙ q),
          subst (λ v. v.motor.target_state ≡ target) same (sym p ∙ q),
        )
    | inr (t, n) ↦ let f : same_state state target ≡ true = cc in absurd (false≢true (sym t ∙ f))
  ]

  switch_loop-Reached :
      (fuel : ℕ) (target : InternalState) (ticks : ℕ) (state : InternalState) (w : World D)
      → state ≡ get_state w
      → Reached target (switch_loop tick fuel target ticks state w)
  unfolding switch_loop
  switch_loop-Reached zero target ticks state w e = λ w' o. cc
  switch_loop-Reached (suc fuel) target ticks state w e =
      switch_loop_cases (Reached target) fuel target ticks state w
        (λ p. done-Reached target state w e p) (λ _ _ w' o. cc) (λ _ _ _ w' o. cc)
        λ n good new. switch_loop-Reached fuel target _ _ _ (synced state ticks _)

  -- When `switchState` returns true, the drive shows the target state at that moment, and no other
  -- thread has replaced the target.
  pub switch_state-Reached :
      (timeout : ℕ) (target : InternalState) (w : World D)
      → (switch_state tick timeout target w).0 ≡ true
      → (get_state (switch_state tick timeout target w).1 ≡ target)
        × ((switch_state tick timeout target w).1.motor.target_state ≡ target)
  switch_state-Reached timeout target w h =
      let (r, found, same) = switch_state_total timeout target w in
      switch_loop-Reached (suc timeout) target timeout (get_state w) (set_target_state target w)
        refl (switch_state tick timeout target w).1
        (found ∙ ap some (sym same ∙ λ i. (h i, (switch_state tick timeout target w).1)))
