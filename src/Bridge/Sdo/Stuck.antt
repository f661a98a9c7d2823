-- ===== src/Bridge/Sdo/Stuck.antt =====
-- The plain requests for an object whose type the switches do not have
-- (canopen_base_driver/src/lely_driver_bridge.cpp).
use ros2_canopen.Base.{
  ℕ, ◌≡◌, refl, arith, sym, ◌∙◌, Bool, true, false, some, [], if_true, if_false,
}
use ros2_canopen.Bridge.Dictionary.{Library, other}
use ros2_canopen.Bridge.Sdo.{Request, State, begin, call}
use ros2_canopen.Bridge.Sdo.Steps.{
  Step, calls, resumes, answers, wakes_up, other_waiter, other_request, Reach, starts, continues,
  IsIdle,
}
use ros2_canopen.Bridge.Sdo.Order.{not_cons}

-- Nothing is left that would reset `running`, and no promise has got an outcome.
abbrev pub IsStuck : {D : Type 0} → State D → State D → Type 0
IsStuck start s =
    (s.running ≡ true)
    × (s.submitted ≡ [])
    × (s.woken ≡ [])
    × ((j : ℕ) → s.outcome j ≡ start.outcome j)

module _ {D : Type 0} (library : Library D) (accepts : Request → Bool) (start : State D) where
  step-IsStuck :
      (made : Request → Bool) (overtaking : Bool) (s s' : State D)
      → Step library accepts made overtaking false s s'
      → IsStuck start s
      → IsStuck start s'
  unfolding call
  step-IsStuck made o _ _ (calls id r s m _) (a, b, c, d) =
      if_true (IsStuck start) s.running _ _ a (a, b, c, d)
  step-IsStuck made o _ _ (resumes id r rest s e) (a, b, c, d) = absurd (not_cons (sym c ∙ e))
  step-IsStuck made o _ _ (answers id r rest x s e) (a, b, c, d) = absurd (not_cons (sym b ∙ e))
  step-IsStuck made o _ _ (wakes_up id r rest s e _) h = absurd (ground (arith, e))
  step-IsStuck made o _ _ (other_waiter c rest s e) h = h
  step-IsStuck made o _ _ (other_request x rest s e) (a, b, c, d) = absurd (not_cons (sym b ∙ e))

  reach-IsStuck :
      (made : Request → Bool) (overtaking : Bool) (first s : State D)
      → IsStuck start first
      → Reach library accepts made overtaking false first s
      → IsStuck start s
  reach-IsStuck made o first _ h starts = h
  reach-IsStuck made o first _ h (continues s s' reach step) =
      step-IsStuck made o s s' step (reach-IsStuck made o first s h reach)

  -- Once an idle driver is asked by `async_sdo_read` or `async_sdo_write` for an object of a type
  -- that is not in the switch, then whatever the threads and lely do afterwards, with or without
  -- overtaking, as long as no thread leaves `sdo_cond.wait` without a notification (a spurious
  -- wake-up): `running` stays set, lely has no request, no waiting thread is woken, and no promise,
  -- that of the call included, gets an outcome.
  pub unsupported_blocks :
      (made : Request → Bool) (overtaking : Bool) (id n : ℕ) (r : Request) (s : State D)
      → IsIdle start
      → r.plain ≡ true
      → library.kind start.dictionary r.index r.subindex ≡ some (other n)
      → Reach library accepts made overtaking false (call library accepts id r start) s
      → IsStuck start s
  unfolding call begin
  unsupported_blocks made o id n r s (a, b, _, c) p k reach =
      reach-IsStuck made o (call library accepts id r start) s
        (if_false (IsStuck start) start.running _ _ a
          (if_true (IsStuck start) r.plain _ _ p (rw k (refl, b, c, λ j. refl))))
        reach
