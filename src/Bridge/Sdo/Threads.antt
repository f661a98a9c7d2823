-- ===== src/Bridge/Sdo/Threads.antt =====
-- Any number of threads with typed requests
-- (canopen_base_driver/include/canopen_base_driver/lely_driver_bridge.hpp).
use ros2_canopen.Base.{
  ℕ, ◌≡◌, inl, inr, refl, arith, Bool, true, false, List, [], ◌∷◌, ◌++◌, Bool-cases, sym, ◌∙◌,
  subst, ap, if_true, if_false,
}
use ros2_canopen.Bridge.Dictionary.{Library}
use ros2_canopen.Bridge.Sdo.{
  Request, Answer, Call, State, begin, call, complete, release, wake, settle, missing,
  answer_outcome, record_answer,
}
use ros2_canopen.Bridge.Sdo.Steps.{
  Step, calls, resumes, answers, wakes_up, other_waiter, other_request, Reach, starts, continues,
  IsIdle,
}
use ros2_canopen.Bridge.Sdo.Order.{
  IsOrderly, begin_holds, begin-IsOrderly, call-IsOrderly, complete-IsOrderly, tail, not_cons,
}

module _ {D : Type 0} (library : Library D) (accepts : Request → Bool) where
  -- The calls of a list are typed ones that lely takes.
  abbrev AllTyped : List Call → Type 0
  AllTyped [] = Unit
  AllTyped ((id, r) ∷ cs) = (r.plain ≡ false) × (accepts r ≡ true) × AllTyped cs

  AllTyped-append : (xs ys : List Call) → AllTyped xs → AllTyped ys → AllTyped (xs ++ ys)
  AllTyped-append [] ys a b = b
  AllTyped-append ((id, r) ∷ xs) ys (p, q, a) b = (p, q, AllTyped-append xs ys a b)

  abbrev Typed : State D → Type 0
  Typed s = AllTyped s.submitted × AllTyped s.waiting × AllTyped s.woken

  wake-Typed : (w : List Call) (s : State D) → s.waiting ≡ w → Typed s → Typed (wake w s)
  wake-Typed [] s e h = h
  wake-Typed ((id, r) ∷ w) s e (a, b, c) =
      let (p, q, b') = subst AllTyped e b in
      (a, b', AllTyped-append s.woken ((id, r) ∷ []) c (p, q, tt))

  release-Typed : (s : State D) → Typed s → Typed (release s)
  release-Typed s h = wake-Typed s.waiting (record s { running = false }) refl h

  begin-Typed :
      (id : ℕ) (r : Request) (s : State D)
      → r.plain ≡ false
      → accepts r ≡ true
      → Typed s
      → Typed (begin library accepts id r s)
  begin-Typed id r s p q (a, b, c) =
      begin_holds library accepts Typed id r s p q
        (release-Typed (settle id (missing r.write) (record s { running = true })) (a, b, c))
        (AllTyped-append s.submitted ((id, r) ∷ []) a (p, q, tt), b, c)

  call-Typed :
      (id : ℕ) (r : Request) (s : State D)
      → r.plain ≡ false
      → accepts r ≡ true
      → Typed s
      → Typed (call library accepts id r s)
  unfolding call
  call-Typed id r s p q (a, b, c) = elim (Bool-cases s.running) [
    | inl run ↦
        if_true Typed s.running _ _ run
          (a, AllTyped-append s.waiting ((id, r) ∷ []) b (p, q, tt), c)
    | inr run ↦ if_false Typed s.running _ _ run (begin-Typed id r s p q (a, b, c))
  ]

  abbrev Holds : State D → Type 0
  Holds s = IsOrderly s × Typed s

  complete-Typed :
      (id : ℕ) (r : Request) (answer : Answer) (s : State D)
      → r.plain ≡ false
      → Typed s
      → Typed (complete library id r answer s)
  unfolding complete
  complete-Typed id r answer s p h = if_false Typed r.plain _ _ p (
      release-Typed
        (settle id (answer_outcome library r answer)
          (record s { dictionary = record_answer library r answer s.dictionary }))
        h)

  call-Holds :
      (id : ℕ) (r : Request) (s : State D)
      → (r.plain ≡ false) × (accepts r ≡ true)
      → s.woken ≡ []
      → Holds s
      → Holds (call library accepts id r s)
  call-Holds id r s (p, q) w (h, t) =
      (call-IsOrderly library accepts id r s p q w h, call-Typed id r s p q t)

  resume-Holds :
      (id : ℕ) (r : Request) (rest : List Call) (s : State D)
      → s.woken ≡ (id, r) ∷ rest
      → Holds s
      → Holds (begin library accepts id r (record s { woken = rest }))
  unfolding IsOrderly
  resume-Holds id r rest s e (inl (_, w, _), _) = absurd (not_cons (sym w ∙ e))
  resume-Holds id r rest s e (inr (_, _, inl (w, _)), _) = absurd (not_cons (sym w ∙ e))
  resume-Holds id r rest s e (inr (_, b, inr (c, w)), (x, y, z)) =
      let (p, q, z') = subst AllTyped e z in
      (
        begin-IsOrderly library accepts id r (record s { woken = rest }) p q b
            (sym (ap tail (sym w ∙ e))),
        begin-Typed id r (record s { woken = rest }) p q (x, y, z'),
      )

  answer-Holds :
      (id : ℕ) (r : Request) (rest : List Call) (a : Answer) (s : State D)
      → s.submitted ≡ (id, r) ∷ rest
      → Holds s
      → Holds (complete library id r a (record s { submitted = rest }))
  unfolding IsOrderly
  answer-Holds id r rest a s e (inr (_, b, _), _) = absurd (not_cons (sym b ∙ e))
  answer-Holds id r rest a s e (inl (_, w, (c, b)), (x, y, z)) =
      let (p, q, x') = subst AllTyped e x in
      let s' = record s { submitted = rest } in
      (
        complete-IsOrderly library accepts id r a s' p (sym (ap tail (sym b ∙ e))) w,
        complete-Typed id r a s' p (x', y, z),
      )

  rotated :
      (c : Call) (rest xs : List Call) → xs ≡ c ∷ rest → AllTyped xs → AllTyped (rest ++ (c ∷ []))
  rotated (id, r) rest xs e h =
      let (p, q, h') = subst AllTyped e h in AllTyped-append rest ((id, r) ∷ []) h' (p, q, tt)

  waiter-IsOrderly :
      (c : Call) (rest : List Call) (s : State D)
      → s.waiting ≡ c ∷ rest
      → IsOrderly s
      → IsOrderly (record s { waiting = rest ++ (c ∷ []) })
  unfolding IsOrderly
  waiter-IsOrderly c rest s e (inl h) = inl h
  waiter-IsOrderly c rest s e (inr (a, b, inl (_, w))) = absurd (not_cons (sym w ∙ e))
  waiter-IsOrderly c rest s e (inr (a, b, inr w)) = inr (a, b, inr w)

  request-IsOrderly :
      (c : Call) (rest : List Call) (s : State D)
      → s.submitted ≡ c ∷ rest
      → IsOrderly s
      → IsOrderly (record s { submitted = rest ++ (c ∷ []) })
  unfolding IsOrderly
  request-IsOrderly c rest s e (inl (a, w, (d, b))) =
      inl (a, w, (c, ap (λ xs. xs ++ (c ∷ [])) (sym (ap tail (sym b ∙ e)))))
  request-IsOrderly c rest s e (inr (a, b, w)) = absurd (not_cons (sym b ∙ e))

  step-Holds :
      (made : Request → Bool)
      → ((r : Request) → made r ≡ true → (r.plain ≡ false) × (accepts r ≡ true))
      → (s s' : State D) → Step library accepts made false false s s'
      → Holds s
      → Holds s'
  step-Holds made t _ _ (calls id r s m (inl e)) h = absurd (ground (arith, e))
  step-Holds made t _ _ (calls id r s m (inr w)) h = call-Holds id r s (t r m) w h
  step-Holds made t _ _ (resumes id r rest s e) h = resume-Holds id r rest s e h
  step-Holds made t _ _ (answers id r rest a s e) h = answer-Holds id r rest a s e h
  step-Holds made t _ _ (wakes_up id r rest s e _) h = absurd (ground (arith, e))
  step-Holds made t _ _ (other_waiter c rest s e) (h, (x, y, z)) =
      (waiter-IsOrderly c rest s e h, (x, rotated c rest s.waiting e y, z))
  step-Holds made t _ _ (other_request c rest s e) (h, (x, y, z)) =
      (request-IsOrderly c rest s e h, (rotated c rest s.submitted e x, y, z))

  reach-Holds :
      (made : Request → Bool) (start s : State D)
      → ((r : Request) → made r ≡ true → (r.plain ≡ false) × (accepts r ≡ true))
      → Holds start
      → Reach library accepts made false false start s
      → Holds s
  reach-Holds made start _ t h starts = h
  reach-Holds made start _ t h (continues s s' reach step) =
      step-Holds made t s s' step (reach-Holds made start s t h reach)

  -- From an idle driver on, with any number of threads that make typed requests, which lely takes,
  -- where no thread calls between a notification and the moment when the woken thread has the mutex,
  -- and no thread leaves `sdo_cond.wait` without a notification (a spurious wake-up): lely never has two requests, `running` tells that it has one, and while threads wait
  -- there is a request or a woken thread.
  pub reach-IsOrderly :
      (made : Request → Bool) (start s : State D)
      → ((r : Request) → made r ≡ true → (r.plain ≡ false) × (accepts r ≡ true))
      → IsIdle start
      → Reach library accepts made false false start s
      → IsOrderly s
  unfolding IsOrderly
  reach-IsOrderly made start s t (a, b, c, d) reach =
      (reach-Holds made start s t (inr (a, b, inl (d, c)), (rw b tt, rw c tt, rw d tt)) reach).0
