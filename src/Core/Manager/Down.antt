-- ===== src/Core/Manager/Down.antt =====
-- What a successful `bring_down_all` has done (canopen_core/src/lifecycle_manager.cpp), for nodes
-- that answer truly.
use ros2_canopen.Base.{ℕ, ap, sym, ◌∙◌, ◌≡◌, ◌⊎◌, inl, inr, arith, true, false, List, [], ◌∷◌}
use ros2_canopen.Core.Manager.{
  PrimaryState, unconfigured, cleanup, deactivate, Clients, Name, master_name, same_name, id_of,
  Manager, change_state, bring_down_node, bring_down_master, bring_down_driver, bring_down_drivers,
  bring_down_all,
}
use ros2_canopen.Core.Manager.Laws.{Truthful, Listed, get_state_lem, change_state_lem}

module _ {W : Type 0} (clients : Clients W) (view : W → ℕ → PrimaryState)
    (laws : Truthful clients view) where
  -- A node that came down is unconfigured, and the others are as they were.
  bring_down_node_lem :
      (id : ℕ) (w : W) (j : ℕ)
      → (bring_down_node clients id w).0 ≡ true
      → (view (bring_down_node clients id w).1 id ≡ unconfigured)
        × ((id ≡ j) ⊎ (view (bring_down_node clients id w).1 j ≡ view w j))
  unfolding bring_down_node
  bring_down_node_lem id w j down =
      let w1 = (change_state clients id deactivate w).1 in
      let w2 = (change_state clients id cleanup w1).1 in
      ground (
        arith,
        down,
        change_state_lem clients view laws id deactivate w j,
        change_state_lem clients view laws id cleanup w1 j,
        get_state_lem clients view laws id w2 j,
        get_state_lem clients view laws id w2 id,
      )

  node_stays :
      (id : ℕ) (w : W) (j : ℕ)
      → (bring_down_node clients id w).0 ≡ true
      → view w j ≡ unconfigured
      → view (bring_down_node clients id w).1 j ≡ unconfigured
  node_stays id w j down u =
      let b = bring_down_node_lem id w j down in
      elim b.1 [ inl e ↦ ap (view (bring_down_node clients id w).1) (sym e) ∙ b.0 | inr e ↦ e ∙ u ]

  module _ (devices : List (Name × ℕ)) where
    drivers_stay :
        (todo : List (Name × ℕ)) (w : W) (j : ℕ)
        → (bring_down_drivers clients devices todo w).0 ≡ true
        → view w j ≡ unconfigured
        → view (bring_down_drivers clients devices todo w).1 j ≡ unconfigured
    unfolding bring_down_drivers bring_down_driver
    drivers_stay [] w j down u = u
    drivers_stay ((name, _) ∷ todo) w j down u =
        let w' = (bring_down_node clients (id_of name devices) w).1 in
        ground (
          arith,
          drivers_stay todo w j,
          node_stays (id_of name devices) w j,
          drivers_stay todo w' j,
        )

    drivers_down :
        (todo : List (Name × ℕ)) (w : W) (name : Name)
        → Listed name todo
        → same_name name master_name ≡ false
        → (bring_down_drivers clients devices todo w).0 ≡ true
        → view (bring_down_drivers clients devices todo w).1 (id_of name devices) ≡ unconfigured
    unfolding bring_down_drivers bring_down_driver
    drivers_down [] w name l n down = absurd l
    drivers_down ((other, id) ∷ todo) w name (inl e) n down =
        let i = id_of other devices in
        let w' = (bring_down_node clients i w).1 in
        let is_driver = ap (λ x. same_name x master_name) e ∙ n in
        let same_id = ap (λ x. id_of x devices) e in
        ap (view (bring_down_drivers clients devices ((other, id) ∷ todo) w).1) (sym same_id)
        ∙ ground (arith, is_driver, bring_down_node_lem i w i, drivers_stay todo w' i)
    drivers_down ((other, id) ∷ todo) w name (inr l) n down =
        let w' = (bring_down_node clients (id_of other devices) w).1 in
        ground (arith, drivers_down todo w name l n, drivers_down todo w' name l n)

  -- Where the nodes answer truly and `bring_down_all` returns true, the master is unconfigured, and
  -- so is each device of the map that is not named exactly "master".
  pub bring_down_all-unconfigured :
      (m : Manager W) (name : Name)
      → Listed name m.devices
      → same_name name master_name ≡ false
      → (bring_down_all clients m).0 ≡ true
      → let w = (bring_down_all clients m).1 in
        (view w m.master_id ≡ unconfigured) × (view w (id_of name m.devices) ≡ unconfigured)
  unfolding bring_down_all bring_down_master
  bring_down_all-unconfigured m name l n down =
      let w = (bring_down_drivers clients m.devices m.devices m.world).1 in
      let i = id_of name m.devices in
      ground (
        arith,
        down,
        bring_down_node_lem m.master_id w i,
        drivers_down m.devices m.devices m.world name l n,
        node_stays m.master_id w i,
      )
