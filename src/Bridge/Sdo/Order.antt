-- ===== src/Bridge/Sdo/Order.antt =====
-- One request at a time (canopen_base_driver/include/canopen_base_driver/lely_driver_bridge.hpp).
use ros2_canopen.Base.{
  ℕ, ◌≡◌, ◌⊎◌, inl, inr, refl, arith, Bool, true, false, Option, none, some, List, [], ◌∷◌, if_true,
  if_false,
}
use ros2_canopen.Bridge.Dictionary.{CoType, Library}
use ros2_canopen.Bridge.Sdo.{
  Request, Answer, Call, State, begin, call, complete, release, wake, settle, submit, begin_typed,
  missing, answer_outcome, record_answer,
}

-- Either lely has the one request that `running` stands for, or it has none and, if threads wait,
-- one of them has been woken.
unfoldable pub IsOrderly : {D : Type 0} → State D → Type 0
IsOrderly s =
    ((s.running ≡ true) × (s.woken ≡ []) × ((c : Call) × (s.submitted ≡ c ∷ [])))
    ⊎ ((s.running ≡ false)
        × (s.submitted ≡ [])
        × (((s.woken ≡ []) × (s.waiting ≡ [])) ⊎ ((c : Call) × (s.woken ≡ c ∷ []))))

abbrev pub tail : List Call → List Call
tail [] = []
tail (c ∷ cs) = cs

pub not_cons : {c : Call} {cs : List Call} → [] ≡ c ∷ cs → ⊥
not_cons e = absurd (ground (arith, e))

module _ {D : Type 0} where
  wake-IsOrderly :
      (w : List Call) (s : State D)
      → s.waiting ≡ w
      → s.running ≡ false
      → s.submitted ≡ []
      → s.woken ≡ []
      → IsOrderly (wake w s)
  unfolding IsOrderly
  wake-IsOrderly [] s e a b c = inr (a, b, inl (c, e))
  wake-IsOrderly (x ∷ w) s e a b c = inr (a, b, inr (x, rw c refl))

  release-IsOrderly : (s : State D) → s.submitted ≡ [] → s.woken ≡ [] → IsOrderly (release s)
  release-IsOrderly s b c = wake-IsOrderly s.waiting (record s { running = false }) refl refl b c

module _ {D : Type 0} (library : Library D) (accepts : Request → Bool) where
  -- A typed call that lely takes ends in one of two ways.
  begin_typed_holds :
      (P : State D → Type 0) (o : Option CoType) (id : ℕ) (r : Request) (s : State D)
      → accepts r ≡ true
      → P (release (settle id (missing r.write) s))
      → P (submit id r s)
      → P (begin_typed library accepts o id r s)
  begin_typed_holds P none id r s q a b = a
  begin_typed_holds P (some t) id r s q a b = if_true P (accepts r) _ _ q b

  pub begin_holds :
      (P : State D → Type 0) (id : ℕ) (r : Request) (s : State D)
      → r.plain ≡ false
      → accepts r ≡ true
      → P (release (settle id (missing r.write) (record s { running = true })))
      → P (submit id r (record s { running = true }))
      → P (begin library accepts id r s)
  unfolding begin
  begin_holds P id r s p q a b = if_false P r.plain _ _ p (
      begin_typed_holds P (library.kind s.dictionary r.index r.subindex) id r
        (record s { running = true }) q a b)

  pub begin-IsOrderly :
      (id : ℕ) (r : Request) (s : State D)
      → r.plain ≡ false
      → accepts r ≡ true
      → s.submitted ≡ []
      → s.woken ≡ []
      → IsOrderly (begin library accepts id r s)
  unfolding IsOrderly
  begin-IsOrderly id r s p q b c =
      begin_holds IsOrderly id r s p q
        (release-IsOrderly (settle id (missing r.write) (record s { running = true })) b c)
        (inl (refl, c, ((id, r), rw b refl)))

  pub call-IsOrderly :
      (id : ℕ) (r : Request) (s : State D)
      → r.plain ≡ false
      → accepts r ≡ true
      → s.woken ≡ []
      → IsOrderly s
      → IsOrderly (call library accepts id r s)
  unfolding call IsOrderly
  call-IsOrderly id r s p a w (inl (run, c, d)) =
      if_true IsOrderly s.running _ _ run (inl (run, c, d))
  call-IsOrderly id r s p a w (inr (run, b, _)) =
      if_false IsOrderly s.running _ _ run (begin-IsOrderly id r s p a b w)

  pub complete-IsOrderly :
      (id : ℕ) (r : Request) (answer : Answer) (s : State D)
      → r.plain ≡ false
      → s.submitted ≡ []
      → s.woken ≡ []
      → IsOrderly (complete library id r answer s)
  unfolding complete
  complete-IsOrderly id r answer s p b c = rw p (
      release-IsOrderly
        (settle id (answer_outcome library r answer)
          (record s { dictionary = record_answer library r answer s.dictionary }))
        b c)
