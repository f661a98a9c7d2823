-- ===== src/Nodes/Drive/Laws.antt =====
-- What the services of a channel do to the node
-- (canopen_402_driver/include/canopen_402_driver/node_interfaces/node_canopen_402_driver_impl.hpp).
use ros2_canopen.Base.{
  ℕ, zero, suc, ◌≡◌, ◌≢◌, ◌⊎◌, inl, inr, refl, arith, ap, Bool, true, false, Option, none, some,
  List, [], ◌∷◌, Bool-cases, if_true, if_false,
}
use ros2_canopen.Nodes.Drive.{
  Doubles, MotorCalls, Channel, Node, get_elem?, set_elem, Service, serve, on_motor, on_channel,
  handle,
}

module _ {ℓ} {A : Type ℓ} where
  get_elem-set_elem :
      (i : ℕ) (x y : A) (xs : List A)
      → get_elem? xs i ≡ some x
      → get_elem? (set_elem i y xs) i ≡ some y
  unfolding get_elem? set_elem
  get_elem-set_elem i x y [] h = absurd (ground (arith, h))
  get_elem-set_elem zero x y (z ∷ xs) h = refl
  get_elem-set_elem (suc i) x y (z ∷ xs) h = get_elem-set_elem i x y xs h

  get_elem-set_other :
      (i j : ℕ) (y : A) (xs : List A) → j ≢ i → get_elem? (set_elem i y xs) j ≡ get_elem? xs j
  unfolding get_elem? set_elem
  get_elem-set_other i j y [] h = refl
  get_elem-set_other zero zero y (z ∷ xs) h = absurd (h refl)
  get_elem-set_other zero (suc j) y (z ∷ xs) h = refl
  get_elem-set_other (suc i) zero y (z ∷ xs) h = refl
  get_elem-set_other (suc i) (suc j) y (z ∷ xs) h =
      get_elem-set_other i j y xs (λ e. h (ap (λ n. suc n) e))

module _ {F M : Type 0} (doubles : Doubles F) (calls : MotorCalls F M) where
  -- The motor of channel `i` got the call, and no other channel has changed.
  abbrev pub IsServed : Service F → ℕ → Node F M → Bool × Node F M → Type 0
  IsServed service i s (r, s') =
      (c : Channel F M) × (m : M) × (s.activated ≡ true)
      × (get_elem? s.channels i ≡ some c)
      × (c.motor ≡ some m)
      × (r ≡ (serve doubles calls service c.scales m).0)
      × (get_elem? s'.channels i
          ≡ some (record c { motor = some (serve doubles calls service c.scales m).1 }))
      × ((j : ℕ) → j ≢ i → get_elem? s'.channels j ≡ get_elem? s.channels j)

  -- Nothing happened, as the node is not active, or there is no such channel, or it has no motor.
  abbrev pub IsDeclined : ℕ → Node F M → Bool × Node F M → Type 0
  IsDeclined i s (r, s') =
      (r ≡ false)
      × (s' ≡ s)
      × ((s.activated ≡ false)
          ⊎ ((get_elem? s.channels i ≡ none)
              ⊎ ((c : Channel F M) × (get_elem? s.channels i ≡ some c) × (c.motor ≡ none))))

  motor_lem :
      (service : Service F) (i : ℕ) (c : Channel F M) (o : Option M) (s : Node F M)
      → s.activated ≡ true
      → get_elem? s.channels i ≡ some c
      → c.motor ≡ o
      → let r = on_motor doubles calls service i c o s in IsServed service i s r ⊎ IsDeclined i s r
  motor_lem service i c none s a e m = inr (refl, refl, inr (inr (c, e, m)))
  motor_lem service i c (some x) s a e m =
      let y = record c { motor = some (serve doubles calls service c.scales x).1 } in
      inl (
        c,
        x,
        a,
        e,
        m,
        refl,
        get_elem-set_elem i c y s.channels e,
        λ j n. get_elem-set_other i j y s.channels n,
      )

  channel_lem :
      (service : Service F) (i : ℕ) (o : Option (Channel F M)) (s : Node F M)
      → s.activated ≡ true
      → get_elem? s.channels i ≡ o
      → let r = on_channel doubles calls service i o s in IsServed service i s r ⊎ IsDeclined i s r
  channel_lem service i none s a e = inr (refl, refl, inr (inl e))
  channel_lem service i (some c) s a e = motor_lem service i c c.motor s a e refl

  -- Every service call, on whatever channel: either the node is active and has a motor in that
  -- channel, which gets exactly the call of the service, with its result for an answer and without
  -- any change to another channel; or the answer is false and nothing changes.
  pub handle_lem :
      (service : Service F) (i : ℕ) (s : Node F M)
      → let r = handle doubles calls service i s in IsServed service i s r ⊎ IsDeclined i s r
  unfolding handle
  handle_lem service i s =
      let P : Bool × Node F M → Type 0 = λ r. IsServed service i s r ⊎ IsDeclined i s r in
      elim (Bool-cases s.activated) [
        | inl a ↦
            if_true P s.activated _ _ a (channel_lem service i (get_elem? s.channels i) s a refl)
        | inr a ↦ if_false P s.activated _ _ a (inr (refl, refl, inl a))
      ]
