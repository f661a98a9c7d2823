-- ===== src/Nodes/Proxy/Laws.antt =====
-- What the SDO services of the proxy driver answer.
use ros2_canopen.Base.{
  ℕ, ◌≡◌, ◌⊎◌, inl, inr, refl, arith, Bool, true, false, Option, none, some, Option-cases,
  Bool-cases, subst,
}
use ros2_canopen.Bridge.Dictionary.{CoType, other, CoData, Library, is_supported}
use ros2_canopen.Bridge.Sdo.{Request, Answer, refused, answered, State, missing, call, begin}
use ros2_canopen.Bridge.Sdo.Steps.{IsIdle}
use ros2_canopen.Bridge.Sdo.Sync.{exchange}
use ros2_canopen.Bridge.Sdo.Once.{IsServed, resolved, exchange-IsServed, outcome_of, after_reply}
use ros2_canopen.Bridge.Access.{Lely}
use ros2_canopen.Nodes.Proxy.{
  Node, Service, blocked, responds, Response, write_request, on_sdo_write, write_response,
}

supported_or_other : (t : CoType) → (is_supported t ≡ true) ⊎ ((n : ℕ) × (t ≡ other n))
supported_or_other (other n) = inr (n, refl)
supported_or_other CoType.boolean = inl refl
supported_or_other CoType.unsigned8 = inl refl
supported_or_other CoType.integer8 = inl refl
supported_or_other CoType.unsigned16 = inl refl
supported_or_other CoType.integer16 = inl refl
supported_or_other CoType.unsigned32 = inl refl
supported_or_other CoType.integer32 = inl refl
supported_or_other CoType.real32 = inl refl

module _ {D : Type 0} (library : Library D) (accepts : Request → Bool) where
  -- The three ways of a plain request of an idle driver.
  abbrev pub IsExchanged : ℕ → Request → Option Answer → State D → State D → Type 0
  IsExchanged id r reply s s' =
      ((library.kind s.dictionary r.index r.subindex ≡ none)
        × (s'.outcome id ≡ some (missing r.write))
        × (s'.dictionary ≡ s.dictionary))
      ⊎ (((n : ℕ) × (library.kind s.dictionary r.index r.subindex ≡ some (other n))
            × (s'.outcome id ≡ none)
            × (s'.dictionary ≡ s.dictionary))
          ⊎ ((t : CoType) × (library.kind s.dictionary r.index r.subindex ≡ some t)
              × (is_supported t ≡ true)
              × IsServed library id (resolved t r) reply s.dictionary s'))

  pub exchange-IsExchanged :
      (id : ℕ) (r : Request) (reply : Option Answer) (s : State D)
      → r.plain ≡ true
      → IsIdle s
      → s.outcome id ≡ none
      → ((x : Request) → accepts x ≡ true)
      → IsExchanged id r reply s (exchange library accepts id r reply s)
  unfolding exchange call begin
  exchange-IsExchanged id r reply s p (a, b, c, d) f q =
      elim (Option-cases (library.kind s.dictionary r.index r.subindex)) [
        | inl k ↦ inl (k, rw (a, p, k, b) (ground arith), rw (a, p, k, b) refl)
        | inr (t, k) ↦ elim (supported_or_other t) [
          | inl u ↦
              inr (
                inr
                  (t, k, u, exchange-IsServed library accepts id r reply s t (a, b, c, d) f k u q))
          | inr (n, e) ↦
              let k' = subst (λ x. library.kind s.dictionary r.index r.subindex ≡ some x) e k in
              inr (inl (n, k', rw (a, p, k', b) f, rw (a, p, k', b) refl))
        ]
      ]

-- A read answers with what the device gives, and without success where it gives an error.
abbrev pub read_expected : Option Answer → Service Response
read_expected none = blocked
read_expected (some refused) = responds (record { success = false; word = 0 })
read_expected (some (answered v)) = responds (record { success = true; word = v })

abbrev pub write_expected : Option Answer → Service Bool
write_expected none = blocked
write_expected (some refused) = responds false
write_expected (some (answered v)) = responds true

write_response_expected :
    {D : Type 0} (library : Library D) (t : CoType) (d : CoData) (reply : Option Answer)
    → write_response (outcome_of library (resolved t (write_request d)) reply)
      ≡ write_expected reply
write_response_expected library t d none = refl
write_response_expected library t d (some refused) = refl
write_response_expected library t d (some (answered v)) = refl

module _ {D W : Type 0} (lely : Lely D W) where
  -- The service `sdo_write`, likewise: false for a node that is not activated and for a missing object,
  -- no answer for a type that is none of the switch, and else the device's: true, when the dictionary
  -- holds the low bytes of the word for the object's type, or false for an error.
  pub on_sdo_write_lem :
      (id : ℕ) (d : CoData) (reply : Option Answer) (s : Node D W)
      → IsIdle s.driver.sdo
      → s.driver.sdo.outcome id ≡ none
      → ((x : Request) → lely.accepts x ≡ true)
      → let (r, s') = on_sdo_write lely id reply d s in
        let kind = lely.dictionary.kind s.driver.sdo.dictionary d.index d.subindex in
        ((s.activated ≡ false) × (r ≡ responds false) × (s' ≡ s))
        ⊎ ((s.activated ≡ true)
            × (((kind ≡ none) × (r ≡ responds false))
                ⊎ (((n : ℕ) × (kind ≡ some (other n)) × (r ≡ blocked))
                    ⊎ ((t : CoType) × (kind ≡ some t)
                        × (is_supported t ≡ true)
                        × (r ≡ write_expected reply)
                        × (s'.driver.sdo.dictionary
                            ≡ after_reply lely.dictionary
                                (resolved t (write_request d))
                                reply
                                s.driver.sdo.dictionary)))))
  unfolding on_sdo_write
  on_sdo_write_lem id d reply s idle f q = elim (Bool-cases s.activated) [
    | inl e ↦ inr (
      e,
      elim (exchange-IsExchanged lely.dictionary lely.accepts id (write_request d) reply
          s.driver.sdo refl idle f q) [
            | inl (k, o, m) ↦ inl (k, rw (e, o) refl)
            | inr (inl (n, k, o, m)) ↦ inr (inl (n, k, rw (e, o) refl))
            | inr (inr (t, k, u, (m, o, x))) ↦ inr (
                inr
                  (t, k, u, rw (e, o) (write_response_expected lely.dictionary t d reply), rw e m))
          ],
    )
    | inr e ↦ inl (e, rw e refl, rw e refl)
  ]
