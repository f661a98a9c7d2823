-- ===== src/Bridge/Sdo/Once.antt =====
-- A request that an idle driver makes, with its answer
-- (canopen_base_driver/include/canopen_base_driver/lely_driver_bridge.hpp,
-- canopen_base_driver/src/lely_driver_bridge.cpp).
use ros2_canopen.Base.{
  ℕ, ◌≡◌, ◌⊎◌, inl, inr, refl, arith, sym, Bool, true, false, Option, none, some, List, [], ◌∷◌,
  ◌++◌, if_true, if_false, if◌then◌else◌, subst, Bool-cases,
}
use ros2_canopen.Bridge.Dictionary.{CoType, Library, is_supported}
use ros2_canopen.Bridge.Sdo.{
  Request, Answer, Outcome, Call, State, begin, call, complete, answer_outcome, record_answer,
  submit, release, settle, make_promise, settle_member, member_promise,
}
use ros2_canopen.Bridge.Sdo.Steps.{IsIdle}
use ros2_canopen.Bridge.Sdo.Sync.{deliver, exchange}

-- The request after the type argument is chosen.
abbrev pub resolved : CoType → Request → Request
resolved t r = record r { T = if r.plain then t else r.T }

module _ {D : Type 0} (library : Library D) where
  -- The dictionary and the promise of the request after the answer, if there is one.
  abbrev pub after_reply : Request → Option Answer → D → D
  after_reply r none d = d
  after_reply r (some a) d = record_answer library r a d

  abbrev pub outcome_of : Request → Option Answer → Option Outcome
  outcome_of r none = none
  outcome_of r (some a) = some (answer_outcome library r a)

  -- What the caller finds: the answer in the promise and the dictionary, and where there is an
  -- answer, the driver idle again.
  abbrev pub IsServed : ℕ → Request → Option Answer → D → State D → Type 0
  IsServed id r reply d s =
      (s.dictionary ≡ after_reply r reply d)
      × (s.outcome id ≡ outcome_of r reply)
      × ((reply ≡ none) ⊎ IsIdle s)

  settled : (id : ℕ) (o : Outcome) (s : State D) → (settle id o s).outcome id ≡ some o
  settled id o s = ground arith

  release-IsServed :
      (id : ℕ) (r : Request) (a : Answer) (d : D) (s : State D)
      → s.dictionary ≡ record_answer library r a d
      → s.submitted ≡ []
      → s.waiting ≡ []
      → s.woken ≡ []
      → IsServed id r (some a) d (release (settle id (answer_outcome library r a) s))
  release-IsServed id r a d s e b c w =
      rw c (e, settled id (answer_outcome library r a) s, inr (refl, b, refl, w))

  -- The callback of a request whose promise is known.
  settle_member-IsServed :
      (id : ℕ) (r : Request) (a : Answer) (d : D) (s : State D) (o : Option ℕ)
      → o ≡ some id
      → s.outcome id ≡ none
      → s.dictionary ≡ record_answer library r a d
      → s.submitted ≡ []
      → s.waiting ≡ []
      → s.woken ≡ []
      → IsServed id r (some a) d (settle_member library o (answer_outcome library r a) s)
  settle_member-IsServed id r a d s o m f e b c w = rw (m, f) (release-IsServed id r a d s e b c w)

  complete-IsServed :
      (id : ℕ) (r : Request) (a : Answer) (s : State D)
      → (r.plain ≡ false) ⊎ (member_promise r.write s ≡ some id)
      → s.outcome id ≡ none
      → s.submitted ≡ []
      → s.waiting ≡ []
      → s.woken ≡ []
      → IsServed id r (some a) s.dictionary (complete library id r a s)
  unfolding complete
  complete-IsServed id r a s p f b c w =
      let s' = record s { dictionary = record_answer library r a s.dictionary } in
      let Q = IsServed id r (some a) s.dictionary in
      elim (Bool-cases r.plain) [
        | inl plain ↦ if_true Q r.plain _ _ plain (elim p [
          | inl e ↦ absurd (ground (arith, plain, e))
          | inr m ↦
              settle_member-IsServed id r a s.dictionary s' (member_promise r.write s') m f refl b c
                w
        ])
        | inr typed ↦
            if_false Q r.plain _ _ typed (release-IsServed id r a s.dictionary s' refl b c w)
      ]

  deliver-IsServed :
      (id : ℕ) (r : Request) (reply : Option Answer) (s : State D) (l : List Call)
      → l ≡ (id, r) ∷ []
      → (r.plain ≡ false) ⊎ (member_promise r.write s ≡ some id)
      → s.outcome id ≡ none
      → s.waiting ≡ []
      → s.woken ≡ []
      → IsServed id r reply s.dictionary (deliver library l reply s)
  deliver-IsServed id r none s l e p f c w = rw e (refl, f, inl refl)
  deliver-IsServed id r (some a) s l e p f c w =
      rw e (complete-IsServed id r a (record s { submitted = [] }) p f refl c w)

  -- A state in which the request is submitted serves it.
  abbrev Serves : ℕ → Request → Option Answer → D → State D → Type 0
  Serves id r reply d s = IsServed id r reply d (deliver library s.submitted reply s)

  submit-Serves :
      (id : ℕ) (r : Request) (reply : Option Answer) (s : State D)
      → s.submitted ≡ []
      → (r.plain ≡ false) ⊎ (member_promise r.write s ≡ some id)
      → s.outcome id ≡ none
      → s.waiting ≡ []
      → s.woken ≡ []
      → Serves id r reply s.dictionary (submit id r s)
  submit-Serves id r reply s b m f c w =
      deliver-IsServed id r reply (submit id r s) (s.submitted ++ ((id, r) ∷ [])) (rw b refl) m f c
        w

module _ {D : Type 0} (library : Library D) (accepts : Request → Bool) where
  promised :
      (write : Bool) (id : ℕ) (s : State D)
      → member_promise write (make_promise write id s) ≡ some id
  promised true id s = refl
  promised false id s = refl

  begin_submits :
      (P : State D → Type 0) (id : ℕ) (r : Request) (s : State D) (t : CoType)
      → library.kind s.dictionary r.index r.subindex ≡ some t
      → is_supported t ≡ true
      → ((x : Request) → accepts x ≡ true)
      → ((r.plain ≡ true)
          → P (
              submit id
                (record r { T = t })
                (make_promise r.write id (record s { running = true }))))
      → ((r.plain ≡ false) → P (submit id r (record s { running = true })))
      → P (begin library accepts id r s)
  unfolding begin
  begin_submits P id r s t k u q plain typed = elim (Bool-cases r.plain) [
    | inl e ↦ if_true P r.plain _ _ e (rw (k, u, q (record r { T = t })) (plain e))
    | inr e ↦ if_false P r.plain _ _ e (rw (k, q r) (typed e))
  ]

  pub exchange-IsServed :
      (id : ℕ) (r : Request) (reply : Option Answer) (s : State D) (t : CoType)
      → IsIdle s
      → s.outcome id ≡ none
      → library.kind s.dictionary r.index r.subindex ≡ some t
      → is_supported t ≡ true
      → ((x : Request) → accepts x ≡ true)
      → IsServed library id
          (resolved t r)
          reply
          s.dictionary
          (exchange library accepts id r reply s)
  unfolding exchange call
  exchange-IsServed id r reply s t (a, b, c, d) f k u q =
      let P = Serves library id (resolved t r) reply s.dictionary in
      let s1 = record s { running = true } in
      let s2 = make_promise r.write id s1 in
      let r' = record r { T = t } in
      if_false P s.running _ _ a (
        begin_submits P id r s t k u q
          (λ e.
            subst
              (λ p.
                Serves library id (record r { T = if p then t else r.T }) reply s.dictionary
                  (submit id r' s2))
              (sym e) (submit-Serves library id r' reply s2 b (inr (promised r.write id s)) f c d))
          (λ e.
            subst
              (λ p.
                Serves library id (record r { T = if p then t else r.T }) reply s.dictionary
                  (submit id r s1))
              (sym e) (submit-Serves library id r reply s1 b (inl e) f c d)))
