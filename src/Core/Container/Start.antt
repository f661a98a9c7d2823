-- ===== src/Core/Container/Start.antt =====
-- A container that comes up (canopen_core/src/device_container.cpp).
use ros2_canopen.Base.{
  ℕ, ◌≡◌, ◌≢◌, ◌⊎◌, inl, inr, refl, arith, sym, ◌∙◌, ap, subst, Bool, true, false, Option, none,
  some, [], ◌∷◌, find, length, Bool-cases, if_true, if_false,
}
use ros2_canopen.Core.Manager.{Name, master_name, contains, same_name}
use ros2_canopen.Core.Config.{Devices}
use ros2_canopen.Core.Container.{
  Loaded, loaded, not_loaded, thrown, Ros, Container, same_kind, load_component, load_drivers,
  load_each, register, create_node, use_master, then_do, load_entries, find_master, load_master,
  load_manager, load_all, manager_failed, drivers_failed, master_failed, if_any, or_throw,
}
use ros2_canopen.Core.Container.Laws.{IsSound, IsKept, IsDone, AllRegistered, count_drivers}
use ros2_canopen.Core.Container.Loop.{load_each-IsDone}

module _ {D N W : Type 0} (ros : Ros D N W) where
  -- The master is there, and no driver yet.
  abbrev pub HasMaster : Devices N → Container D N W → Type 0
  HasMaster config s =
      ((node : D) × (s.can_master ≡ some node) × (s.lifecycle_operation ≡ ros.is_lifecycle node))
      × (s.registered ≡ [])
      × (s.config ≡ config)

  abbrev IsMastered : Devices N → Loaded × Container D N W → Type 0
  IsMastered config (r, s) = (r ≢ loaded) ⊎ HasMaster config s

  -- A container without a master, after the component was loaded.
  abbrev IsFirst : Devices N → Loaded × Container D N W → Type 0
  IsFirst config (r, s) =
      (r ≢ loaded) ⊎ ((s.config ≡ config) × ((s.can_master ≡ none) ⊎ (s.registered ≡ [])))

  register-IsFirst :
      (name : Name) (id : ℕ) (o : Option D) (s : Container D N W)
      → s.can_master ≡ none
      → s.registered ≡ []
      → IsFirst s.config (register ros name id o s)
  register-IsFirst name id none s c r = inl (λ e. ground (arith, e))
  register-IsFirst name id (some node) s c r =
      let P = IsFirst s.config in
      let same = same_kind s.lifecycle_operation (ros.is_lifecycle node) in
      elim (Bool-cases (same_name name master_name)) [
        | inl e ↦ if_true P (same_name name master_name) _ _ e (inr (refl, inr r))
        | inr e ↦ if_false P (same_name name master_name) _ _ e (elim (Bool-cases same) [
          | inl k ↦ if_true P same _ _ k (inr (refl, inl c))
          | inr k ↦ if_false P same _ _ k (inl (λ e. ground (arith, e)))
        ])
      ]

  create_node-IsFirst :
      (found : Bool) (driver name : Name) (id : ℕ) (s : Container D N W)
      → s.can_master ≡ none
      → s.registered ≡ []
      → IsFirst s.config (create_node ros found driver name id s)
  create_node-IsFirst false driver name id s c r = inl (λ e. ground (arith, e))
  create_node-IsFirst true driver name id s c r =
      let (node, w) = ros.create driver name id s.world in
      register-IsFirst name id node (record s { world = w }) c r

  use_master-IsMastered :
      (o : Option D) (id : ℕ) (s : Container D N W)
      → o ≡ s.can_master
      → (s.can_master ≡ none) ⊎ (s.registered ≡ [])
      → IsMastered s.config (use_master ros o id s)
  use_master-IsMastered none id s e h = inl (λ x. ground (arith, x))
  use_master-IsMastered (some node) id s e (inl c) = absurd (ground (arith, e, c))
  use_master-IsMastered (some node) id s e (inr r) =
      let P = IsMastered s.config in
      elim (Bool-cases (ros.init_node node s.world).0) [
        | inl k ↦
            if_true P (ros.init_node node s.world).0 _ _ k (inr ((node, sym e, refl), r, refl))
        | inr k ↦ if_false P (ros.init_node node s.world).0 _ _ k (inl (λ x. ground (arith, x)))
      ]

  then_master :
      (config : Devices N) (id : ℕ) (r : Loaded) (s : Container D N W)
      → IsFirst config (r, s)
      → IsMastered config (then_do (r, s) (λ s'. use_master ros s'.can_master id s'))
  then_master config id loaded s (inl ne) = absurd (ne refl)
  then_master config id loaded s (inr (c, h)) =
      subst (λ x. IsMastered x (use_master ros s.can_master id s)) c
        (use_master-IsMastered s.can_master id s refl h)
  then_master config id not_loaded s h = inl (λ x. ground (arith, x))
  then_master config id (thrown e) s h = inl (λ x. ground (arith, x))

  entries-IsMastered :
      (name : Name) (o : Option ℕ) (d p : Option Name) (s : Container D N W)
      → s.can_master ≡ none
      → s.registered ≡ []
      → IsMastered s.config (
          load_entries o d p
            (λ id driver package_name s.
              then_do
                (load_component ros package_name driver id name s)
                (λ s'. use_master ros s'.can_master id s'))
            s)
  unfolding load_component
  entries-IsMastered name none d p s c r = inl (λ x. ground (arith, x))
  entries-IsMastered name (some id) none p s c r = inl (λ x. ground (arith, x))
  entries-IsMastered name (some id) (some d) none s c r = inl (λ x. ground (arith, x))
  entries-IsMastered name (some id) (some d) (some p) s c r =
      let (found, w) = ros.has_component p d s.world in
      let (result, s1) = create_node ros found d name id (record s { world = w }) in
      then_master s.config id result s1
        (create_node-IsFirst found d name id (record s { world = w }) c r)

  find_master-IsMastered :
      (ds : Devices N) (s : Container D N W)
      → s.can_master ≡ none
      → s.registered ≡ []
      → IsMastered s.config (find_master ros ds s)
  unfolding find_master
  find_master-IsMastered [] s c r = inl (λ x. ground (arith, x))
  find_master-IsMastered ((name, n) ∷ ds) s c r =
      let P = IsMastered s.config in
      let e = ros.entry n in
      elim (Bool-cases (contains master_name name)) [
        | inl t ↦
            if_true P (contains master_name name) _ _ t
              (entries-IsMastered name e.node_id e.driver e.package_name s c r)
        | inr t ↦ if_false P (contains master_name name) _ _ t (find_master-IsMastered ds s c r)
      ]

  -- What the container is after it came up: the drivers are of the master's kind, none has its id,
  -- every device that asks for a driver has one, with as many drivers as such devices, and the
  -- manager is there if the nodes have life cycles.
  abbrev pub IsUp : Devices N → Container D N W → Type 0
  IsUp config s =
      ((master : D) × (s.can_master ≡ some master)
        × ((id : ℕ) (node : D)
            → find id s.registered ≡ some node
            → same_kind (ros.is_lifecycle master) (ros.is_lifecycle node) ≡ true)
        × ((ros.is_lifecycle master ≡ false) ⊎ (s.has_manager ≡ true)))
      × (find s.can_master_id s.registered ≡ none)
      × AllRegistered ros config s.registered
      × (length s.registered ≡ count_drivers config)

  abbrev pub IsStarted : Devices N → Loaded × Container D N W → Type 0
  IsStarted config (r, s) = (r ≢ loaded) ⊎ IsUp config s

  load_manager-IsStarted :
      (config : Devices N) (s1 s : Container D N W)
      → HasMaster config s1
      → IsKept ros s1 s
      → IsSound ros s
      → AllRegistered ros config s.registered
      → length s.registered ≡ count_drivers config
      → IsStarted config (or_throw manager_failed (load_manager ros s))
  unfolding load_manager
  load_manager-IsStarted config s1 s ((master, c, l), _, _) (_, l', c') (kinds, own) all count =
      let life = l' ∙ l in
      let kinds' = λ (id : ℕ) (node : D) (e : find id s.registered ≡ some node).
        subst (λ x. same_kind x (ros.is_lifecycle node) ≡ true) life (kinds id node e) in
      let ok = (ros.create_manager s.world).0 in
      let P : Loaded × Container D N W → Type 0 =
        λ x. IsStarted config (or_throw manager_failed x) in
      elim (Bool-cases s.lifecycle_operation) [
        | inl t ↦ if_true P s.lifecycle_operation _ _ t (elim (Bool-cases ok) [
          | inl u ↦ if_true P ok _ _ u (inr ((master, c' ∙ c, kinds', inr refl), own, all, count))
          | inr u ↦ if_false P ok _ _ u (inl (λ x. ground (arith, x)))
        ])
        | inr t ↦
            if_false P s.lifecycle_operation _ _ t
              (inr ((master, c' ∙ c, kinds', inl (sym life ∙ t)), own, all, count))
      ]

  drivers-IsStarted :
      (config : Devices N) (s1 : Container D N W) (r : Loaded) (s : Container D N W)
      → HasMaster config s1
      → IsDone ros config s1 (r, s)
      → IsStarted config (
          then_do
            (or_throw drivers_failed (r, s))
            (λ s2. or_throw manager_failed (load_manager ros s2)))
  drivers-IsStarted config s1 not_loaded s m d = inl (λ x. ground (arith, x))
  drivers-IsStarted config s1 (thrown e) s m d = inl (λ x. ground (arith, x))
  drivers-IsStarted config s1 loaded s m (sound, kept, inl ne) = absurd (ne refl)
  drivers-IsStarted config s1 loaded s m (sound, kept, inr (all, count, _)) =
      load_manager-IsStarted config s1 s m kept sound all
        (omega (arith, count, ap (λ l. length l) m.1))

  any-IsDone :
      (ds : Devices N) (s : Container D N W)
      → IsDone ros ds s (load_each ros ds s)
      → IsSound ros s
      → IsDone ros ds s (if_any ds (load_each ros ds) s)
  any-IsDone [] s done h = (h, (refl, refl, refl), inl (λ x. ground (arith, x)))
  any-IsDone (d ∷ ds) s done h = done

  no_drivers : (s : Container D N W) → s.registered ≡ [] → IsSound ros s
  unfolding find
  no_drivers s e = (
    λ id node h. absurd (ground (arith, sym (ap (λ l. find id l) e) ∙ h)),
    ap (λ l. find s.can_master_id l) e,
  )

  -- With a configuration without devices, `load_drivers` fails.
  load_drivers-IsDone :
      (s : Container D N W) → IsSound ros s → IsDone ros s.config s (load_drivers ros s)
  unfolding load_drivers
  load_drivers-IsDone s h = any-IsDone s.config s (load_each-IsDone ros s.config s h) h

  master-IsStarted :
      (config : Devices N) (r : Loaded) (s : Container D N W)
      → IsMastered config (r, s)
      → IsStarted config (
          then_do (or_throw master_failed (r, s)) (λ s1.
            then_do
              (or_throw drivers_failed (load_drivers ros s1))
              (λ s2. or_throw manager_failed (load_manager ros s2))))
  master-IsStarted config not_loaded s h = inl (λ x. ground (arith, x))
  master-IsStarted config (thrown e) s h = inl (λ x. ground (arith, x))
  master-IsStarted config loaded s (inl ne) = absurd (ne refl)
  master-IsStarted config loaded s (inr m) =
      let r = load_drivers ros s in
      drivers-IsStarted config s r.0 r.1 m
        (subst (λ ds. IsDone ros ds s r) m.2 (load_drivers-IsDone s (no_drivers s m.1)))

  -- From a container that has no master and no drivers yet, however the configuration and the
  -- components look: where loading returns, there is a master, all drivers are life cycle nodes or
  -- not as the master is, none has the master's id, every device that asks for a driver has one
  -- under its own id, there are as many drivers as such devices, and the manager is there for a
  -- master with a life cycle.
  pub load_all-IsStarted :
      (s : Container D N W)
      → s.can_master ≡ none
      → s.registered ≡ []
      → IsStarted s.config (load_all ros s)
  unfolding load_all load_master
  load_all-IsStarted s c e =
      let (r, s1) = find_master ros s.config s in
      master-IsStarted s.config r s1 (find_master-IsMastered s.config s c e)
