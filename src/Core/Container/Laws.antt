-- ===== src/Core/Container/Laws.antt =====
-- What the container holds once it has loaded the devices (canopen_core/src/device_container.cpp).
use ros2_canopen.Base.{
  ℕ, suc, ◌+◌, ◌≡◌, ◌≢◌, ◌⊎◌, inl, inr, refl, arith, sym, ◌∙◌, ap, subst, Bool, true, false, ◌==◌,
  Option, none, some, List, [], ◌∷◌, find, assign, find-assign, is_some, length, Bool-cases,
  Option-cases, if_true, if_false, if◌then◌else◌,
}
use ros2_canopen.Core.Manager.{Name, master_name, contains, same_name, starts_with}
use ros2_canopen.Core.Config.{Devices}
use ros2_canopen.Core.Container.{
  Loaded, loaded, not_loaded, thrown, Ros, Container, same_kind, load_component, load_driver,
  is_driver, register, create_node, use_driver, then_do,
}

starts_with-same_name : (a b : Name) → same_name a b ≡ true → starts_with b a ≡ true
starts_with-same_name [] [] h = refl
starts_with-same_name [] (d ∷ ds) h = absurd (ground (arith, h))
starts_with-same_name (c ∷ cs) [] h = refl
starts_with-same_name (c ∷ cs) (d ∷ ds) h = ground (arith, h, starts_with-same_name cs ds)

contains-same_name : (a b : Name) → same_name a b ≡ true → contains b a ≡ true
contains-same_name [] b h = starts_with-same_name [] b h
contains-same_name (c ∷ cs) b h = ground (arith, starts_with-same_name (c ∷ cs) b h)

not_master : (name : Name) → is_driver name ≡ true → same_name name master_name ≡ false
not_master name h = elim (Bool-cases (same_name name master_name)) [
  | inl e ↦ absurd (ground (arith, h, contains-same_name name master_name e))
  | inr e ↦ e
]

-- The devices whose names ask for a driver.
abbrev pub count_drivers : {N : Type 0} → Devices N → ℕ
count_drivers [] = 0
count_drivers ((name, n) ∷ rest) =
    if is_driver name then suc (count_drivers rest) else count_drivers rest

module _ {D N W : Type 0} (ros : Ros D N W) where
  -- What no loading of a driver changes.
  abbrev pub IsKept : Container D N W → Container D N W → Type 0
  IsKept s s' =
      (s'.can_master_id ≡ s.can_master_id)
      × (s'.lifecycle_operation ≡ s.lifecycle_operation)
      × (s'.can_master ≡ s.can_master)

  -- A driver that is new, of the master's kind and not under the master's id.
  abbrev pub IsAdded : ℕ → D → Container D N W → Container D N W → Type 0
  IsAdded id node s s' =
      (s'.registered ≡ assign id node s.registered)
      × (find id s.registered ≡ none)
      × ((id == s.can_master_id) ≡ false)
      × (same_kind s.lifecycle_operation (ros.is_lifecycle node) ≡ true)

  abbrev pub Outcome : ℕ → Container D N W → Loaded × Container D N W → Type 0
  Outcome id s (r, s') =
      IsKept s s'
      × (((r ≢ loaded) × (s'.registered ≡ s.registered)) ⊎ ((node : D) × IsAdded id node s s'))

  register-Outcome :
      (name : Name) (id : ℕ) (o : Option D) (s : Container D N W)
      → is_driver name ≡ true
      → find id s.registered ≡ none
      → (id == s.can_master_id) ≡ false
      → Outcome id s (register ros name id o s)
  register-Outcome name id none s h f m = ((refl, refl, refl), inl (λ e. ground (arith, e), refl))
  register-Outcome name id (some node) s h f m =
      if_false (Outcome id s) (same_name name master_name) _ _ (not_master name h)
        (elim (Bool-cases (same_kind s.lifecycle_operation (ros.is_lifecycle node))) [
          | inl e ↦
              if_true (Outcome id s) (same_kind s.lifecycle_operation (ros.is_lifecycle node)) _ _ e
                ((refl, refl, refl), inr (node, (refl, f, m, e)))
          | inr e ↦
              if_false (Outcome id s) (same_kind s.lifecycle_operation (ros.is_lifecycle node)) _ _
                e ((refl, refl, refl), inl (λ e'. ground (arith, e'), refl))
        ])

  create_node-Outcome :
      (found : Bool) (driver name : Name) (id : ℕ) (s : Container D N W)
      → is_driver name ≡ true
      → find id s.registered ≡ none
      → (id == s.can_master_id) ≡ false
      → Outcome id s (create_node ros found driver name id s)
  create_node-Outcome false driver name id s h f m =
      ((refl, refl, refl), inl (λ e. ground (arith, e), refl))
  create_node-Outcome true driver name id s h f m =
      let (node, w) = ros.create driver name id s.world in
      register-Outcome name id node (record s { world = w }) h f m

  init-Outcome :
      (o : Option D) (id : ℕ) (node : D) (s s1 : Container D N W)
      → IsKept s s1
      → IsAdded id node s s1
      → Outcome id s (use_driver ros o s1)
  init-Outcome none id node s s1 k a = (k, inr (node, a))
  init-Outcome (some d) id node s s1 k a = elim (Bool-cases (ros.init_node d s1.world).0) [
    | inl e ↦ if_true (Outcome id s) (ros.init_node d s1.world).0 _ _ e (k, inr (node, a))
    | inr e ↦ if_false (Outcome id s) (ros.init_node d s1.world).0 _ _ e (k, inr (node, a))
  ]

  then_do-Outcome :
      (id : ℕ) (s : Container D N W) (r : Loaded) (s1 : Container D N W)
      → Outcome id s (r, s1)
      → Outcome id s (then_do (r, s1) (λ s2. use_driver ros (find id s2.registered) s2))
  then_do-Outcome id s loaded s1 (k, inl (ne, _)) = absurd (ne refl)
  then_do-Outcome id s loaded s1 (k, inr (node, a)) =
      init-Outcome (find id s1.registered) id node s s1 k a
  then_do-Outcome id s not_loaded s1 h = h
  then_do-Outcome id s (thrown e) s1 h = h

  refused : (id : ℕ) (s : Container D N W) → Outcome id s (not_loaded, s)
  refused id s = ((refl, refl, refl), inl (λ e. ground (arith, e), refl))

  pub load_driver-Outcome :
      (name : Name) (id : ℕ) (driver pack : Name) (s : Container D N W)
      → is_driver name ≡ true
      → Outcome id s (load_driver ros name id driver pack s)
  unfolding load_driver load_component
  load_driver-Outcome name id driver pack s h =
      let P = Outcome id s in
      let (found, w) = ros.has_component pack driver s.world in
      let made = create_node ros found driver name id (record s { world = w }) in
      elim (Bool-cases (id == s.can_master_id)) [
        | inl e ↦ if_true P (id == s.can_master_id) _ _ e (refused id s)
        | inr m ↦
            if_false P (id == s.can_master_id) _ _ m (elim (Option-cases (find id s.registered)) [
              | inl f ↦ if_false P (is_some (find id s.registered)) _ _ (ap (λ o. is_some o) f) (
                  then_do-Outcome id s made.0 made.1
                    (create_node-Outcome found driver name id (record s { world = w }) h f m))
              | inr (node, f) ↦
                  if_true P (is_some (find id s.registered)) _ _ (ap (λ o. is_some o) f)
                    (refused id s)
            ])
      ]

  -- Each device whose name asks for a driver has one under its id.
  abbrev pub AllRegistered : Devices N → List (ℕ × D) → Type 0
  AllRegistered [] registered = Unit {0}
  AllRegistered ((name, n) ∷ rest) registered =
      ((is_driver name ≡ false)
        ⊎ ((id : ℕ) × (node : D) × ((ros.entry n).node_id ≡ some id)
            × (find id registered ≡ some node)))
      × AllRegistered rest registered

  -- Every driver is of the master's kind, and none has the master's id.
  abbrev pub IsSound : Container D N W → Type 0
  IsSound s =
      ((id : ℕ) (node : D)
        → find id s.registered ≡ some node
        → same_kind s.lifecycle_operation (ros.is_lifecycle node) ≡ true)
      × (find s.can_master_id s.registered ≡ none)

  pub added-IsSound :
      (id : ℕ) (node : D) (s s' : Container D N W)
      → IsKept s s'
      → IsAdded id node s s'
      → IsSound s
      → IsSound s'
  added-IsSound id node s s' (a, b, c) (r, f, m, k) (x, y) = (
    λ j v h.
        ground (arith, h, ap (λ l. find j l) r ∙ find-assign id j node s.registered, x j v, k, b),
    (ap (λ j. find j s'.registered) a
          ∙ (ap (λ l. find s.can_master_id l) r ∙ find-assign id s.can_master_id node s.registered))
        ∙ rw m y,
  )

  pub length-assign :
      (id : ℕ) (node : D) (l : List (ℕ × D))
      → find id l ≡ none
      → length (assign id node l) ≡ suc (length l)
  unfolding find assign
  length-assign id node [] h = refl
  length-assign id node ((j, v) ∷ l) h = ground (arith, h, length-assign id node l)

  -- Old entries are still there.
  abbrev pub IsGrown : Container D N W → Container D N W → Type 0
  IsGrown s s' =
      (id : ℕ) (node : D) → find id s.registered ≡ some node → find id s'.registered ≡ some node

  pub added-IsGrown :
      (id : ℕ) (node : D) (s s' : Container D N W) → IsAdded id node s s' → IsGrown s s'
  added-IsGrown id node s s' (r, f, m, k) j v h =
      ground (arith, h, f, ap (λ l. find j l) r ∙ find-assign id j node s.registered)

  abbrev pub IsDone : Devices N → Container D N W → Loaded × Container D N W → Type 0
  IsDone ds s (r, s') =
      IsSound s'
      × IsKept s s'
      × ((r ≢ loaded)
          ⊎ (AllRegistered ds s'.registered
              × (length s'.registered ≡ length s.registered + count_drivers ds)
              × IsGrown s s'))

  AllRegistered-grown :
      (ds : Devices N) (s s' : Container D N W)
      → IsGrown s s'
      → AllRegistered ds s.registered
      → AllRegistered ds s'.registered
  AllRegistered-grown [] s s' g h = tt
  AllRegistered-grown ((name, n) ∷ ds) s s' g (inl e, h) = (inl e, AllRegistered-grown ds s s' g h)
  AllRegistered-grown ((name, n) ∷ ds) s s' g (inr (id, node, e, f), h) =
      (inr (id, node, e, g id node f), AllRegistered-grown ds s s' g h)

  -- One device that asks for a driver.
  abbrev pub IsEntered : Option ℕ → Container D N W → Loaded × Container D N W → Type 0
  IsEntered o s (r, s') =
      IsSound s'
      × IsKept s s'
      × ((r ≢ loaded) ⊎ ((id : ℕ) × (node : D) × (o ≡ some id) × IsAdded id node s s'))

  pub failed-IsEntered :
      (o : Option ℕ) (s : Container D N W) → IsSound s → IsEntered o s (not_loaded, s)
  failed-IsEntered o s h = (h, (refl, refl, refl), inl (λ e. ground (arith, e)))

  kept-IsSound :
      (s s' : Container D N W) → IsKept s s' → s'.registered ≡ s.registered → IsSound s → IsSound s'
  kept-IsSound s s' (a, b, c) same (x, y) = (
    λ j v e.
        subst (λ l. same_kind l (ros.is_lifecycle v) ≡ true) (sym b)
          (x j v (sym (ap (λ l. find j l) same) ∙ e)),
    ap (λ j. find j s'.registered) a ∙ (ap (λ l. find s.can_master_id l) same ∙ y),
  )

  pub outcome-IsEntered :
      (id : ℕ) (s : Container D N W) (r : Loaded × Container D N W)
      → IsSound s
      → Outcome id s r
      → IsEntered (some id) s r
  outcome-IsEntered id s r h (k, inl (ne, same)) = (kept-IsSound s r.1 k same h, k, inl ne)
  outcome-IsEntered id s r h (k, inr (node, a)) =
      (added-IsSound id node s r.1 k a h, k, inr (id, node, refl, a))
