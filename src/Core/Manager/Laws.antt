-- ===== src/Core/Manager/Laws.antt =====
-- What a successful `bring_up_all` has done (canopen_core/src/lifecycle_manager.cpp), for nodes that
-- answer truly.
use ros2_canopen.Base.{
  ℕ, ap, sym, ◌∙◌, ◌≡◌, ◌≢◌, ◌⊎◌, inl, inr, arith, true, false, none, some, List, [], ◌∷◌, ◌==◌,
  ==_iff, Bool-cases,
}
use ros2_canopen.Core.Manager.{
  PrimaryState, unknown, unconfigured, inactive, active, Transition, configure, cleanup, activate,
  deactivate, Clients, Name, master_name, contains, id_of, Manager, get_state, change_state,
  bring_up_node, bring_up_master, bring_up_driver, bring_up_drivers, bring_up_all,
}

-- The state that a transition leads to.
abbrev pub target : Transition → PrimaryState
target configure = inactive
target cleanup = unconfigured
target activate = active
target deactivate = inactive

-- The map has the name.
abbrev pub Listed : Name → List (Name × ℕ) → Type 0
Listed name [] = ⊥
Listed name ((other, _) ∷ rest) = (other ≡ name) ⊎ Listed name rest

-- Nodes that answer truly: a reported state is the node's, a transition reported as successful has
-- led to its target, only a request for a transition changes a node's state, and only its own.
pub record Truthful {W : Type 0} (clients : Clients W) (view : W → ℕ → PrimaryState) : Type 0 where
  pub wait_keeps : (id : ℕ) (w : W) (j : ℕ) → view (clients.wait_for_service id w).1 j ≡ view w j
  pub ask_keeps : (id : ℕ) (w : W) (j : ℕ) → view (clients.ask_state id w).1 j ≡ view w j
  pub ask_tells :
      (id : ℕ) (w : W)
      → ((clients.ask_state id w).0 ≡ none) ⊎ ((clients.ask_state id w).0 ≡ some (view w id))
  pub change_others :
      (id : ℕ) (t : Transition) (w : W) (j : ℕ)
      → id ≢ j
      → view (clients.ask_change id t w).1 j ≡ view w j
  pub change_succeeds :
      (id : ℕ) (t : Transition) (w : W)
      → (clients.ask_change id t w).0 ≡ some true
      → view (clients.ask_change id t w).1 id ≡ target t

module _ {W : Type 0} (clients : Clients W) (view : W → ℕ → PrimaryState)
    (laws : Truthful clients view) where
  pub get_state_lem :
      (id : ℕ) (w : W) (j : ℕ)
      → (view (get_state clients id w).1 j ≡ view w j)
        × (((get_state clients id w).0 ≡ unknown) ⊎ ((get_state clients id w).0 ≡ view w id))
  unfolding get_state
  get_state_lem id w j =
      let w' = (clients.wait_for_service id w).1 in
      ground (
        arith,
        laws.wait_keeps id w j,
        laws.wait_keeps id w id,
        laws.ask_keeps id w' j,
        laws.ask_tells id w',
      )

  others :
      (id : ℕ) (t : Transition) (w : W) (j : ℕ)
      → (id ≡ j) ⊎ (view (clients.ask_change id t w).1 j ≡ view w j)
  others id t w j = elim (Bool-cases (id == j)) [
    | inl e ↦ inl ((==_iff id j).0 e)
    | inr e ↦ inr (laws.change_others id t w j (ground arith))
  ]

  pub change_state_lem :
      (id : ℕ) (t : Transition) (w : W) (j : ℕ)
      → ((id ≡ j) ⊎ (view (change_state clients id t w).1 j ≡ view w j))
        × (((change_state clients id t w).0 ≡ false)
            ⊎ (view (change_state clients id t w).1 id ≡ target t))
  unfolding change_state
  change_state_lem id t w j =
      let w' = (clients.wait_for_service id w).1 in
      ground (arith, laws.wait_keeps id w j, others id t w' j, laws.change_succeeds id t w')

  -- A node that came up was unconfigured and is active, and the others are as they were.
  bring_up_node_lem :
      (id : ℕ) (w : W) (j : ℕ)
      → (bring_up_node clients id w).0 ≡ true
      → (view w id ≡ unconfigured)
        × (view (bring_up_node clients id w).1 id ≡ active)
        × ((id ≡ j) ⊎ (view (bring_up_node clients id w).1 j ≡ view w j))
  unfolding bring_up_node
  bring_up_node_lem id w j up =
      let w1 = (get_state clients id w).1 in
      let w2 = (change_state clients id configure w1).1 in
      ground (
        arith,
        up,
        get_state_lem id w j,
        change_state_lem id configure w1 j,
        change_state_lem id activate w2 j,
      )

  -- Nothing that is active goes down while a node comes up.
  node_keeps :
      (id : ℕ) (w : W) (j : ℕ)
      → (bring_up_node clients id w).0 ≡ true
      → view w j ≡ active
      → view (bring_up_node clients id w).1 j ≡ active
  node_keeps id w j up act =
      let b = bring_up_node_lem id w j up in
      elim b.2 [ inl e ↦ ap (view (bring_up_node clients id w).1) (sym e) ∙ b.1 | inr e ↦ e ∙ act ]

  module _ (master_id : ℕ) (devices : List (Name × ℕ)) where
    driver_keeps :
        (name : Name) (w : W) (j : ℕ)
        → (bring_up_driver clients master_id devices name w).0 ≡ true
        → view w j ≡ active
        → view (bring_up_driver clients master_id devices name w).1 j ≡ active
    unfolding bring_up_driver
    driver_keeps name w j up act =
        let w1 = (get_state clients master_id w).1 in
        ground (arith, get_state_lem master_id w j, node_keeps (id_of name devices) w1 j)

    driver_up :
        (name : Name) (w : W)
        → (bring_up_driver clients master_id devices name w).0 ≡ true
        → view (bring_up_driver clients master_id devices name w).1 (id_of name devices) ≡ active
    unfolding bring_up_driver
    driver_up name w up =
        let w1 = (get_state clients master_id w).1 in
        let id = id_of name devices in ground (arith, bring_up_node_lem id w1 id)

    drivers_keep :
        (todo : List (Name × ℕ)) (w : W) (j : ℕ)
        → (bring_up_drivers clients master_id devices todo w).0 ≡ true
        → view w j ≡ active
        → view (bring_up_drivers clients master_id devices todo w).1 j ≡ active
    unfolding bring_up_drivers
    drivers_keep [] w j up act = act
    drivers_keep ((name, id) ∷ todo) w j up act =
        let w' = (bring_up_driver clients master_id devices name w).1 in
        ground (arith, drivers_keep todo w j, driver_keeps name w j, drivers_keep todo w' j)

    drivers_up :
        (todo : List (Name × ℕ)) (w : W) (name : Name)
        → Listed name todo
        → contains master_name name ≡ false
        → (bring_up_drivers clients master_id devices todo w).0 ≡ true
        → view (bring_up_drivers clients master_id devices todo w).1 (id_of name devices) ≡ active
    unfolding bring_up_drivers
    drivers_up [] w name l n up = absurd l
    drivers_up ((other, id) ∷ todo) w name (inl e) n up =
        let w' = (bring_up_driver clients master_id devices other w).1 in
        let is_driver = ap (contains master_name) e ∙ n in
        let same_id = ap (λ x. id_of x devices) e in
        ap (view (bring_up_drivers clients master_id devices ((other, id) ∷ todo) w).1)
          (sym same_id)
        ∙ ground (arith, is_driver, driver_up other w, drivers_keep todo w' (id_of other devices))
    drivers_up ((other, id) ∷ todo) w name (inr l) n up =
        let w' = (bring_up_driver clients master_id devices other w).1 in
        ground (arith, drivers_up todo w name l n, drivers_up todo w' name l n)

  -- Where the nodes answer truly and `bring_up_all` returns true, the master and each device of
  -- the map whose name does not contain "master" are active, and the master was unconfigured before.
  pub bring_up_all-active :
      (m : Manager W) (name : Name)
      → Listed name m.devices
      → contains master_name name ≡ false
      → (bring_up_all clients m).0 ≡ true
      → let w = (bring_up_all clients m).1 in
        (view w m.master_id ≡ active)
        × (view w (id_of name m.devices) ≡ active)
        × (view m.world m.master_id ≡ unconfigured)
  unfolding bring_up_all bring_up_master
  bring_up_all-active m name l n up =
      let w = (bring_up_master clients m.master_id m.world).1 in
      ground (
        arith,
        up,
        bring_up_node_lem m.master_id m.world m.master_id,
        drivers_keep m.master_id m.devices m.devices w m.master_id,
        drivers_up m.master_id m.devices m.devices w name l n,
      )
