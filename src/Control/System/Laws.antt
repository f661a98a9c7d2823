-- ===== src/Control/System/Laws.antt =====
-- The commands of a cycle are sent once.
use ros2_canopen.Base.{ℕ, ◌≡◌, refl, inl, inr, [], ◌∷◌, Bool-cases}
use ros2_canopen.Control.Value.{Floats, IsFloats}
use ros2_canopen.Control.Node.{NodeData}
use ros2_canopen.Control.System.{
  Drivers, Nodes, write_reset, write_start, write_tpdo, write_node, write,
}

module _ {F W : Type 0} (floats : Floats F) (laws : IsFloats floats) (drivers : Drivers W) where
  IsQuiet : NodeData F → Type 0
  IsQuiet n =
      (n.nmt_state.reset_ons ≡ floats.quiet_nan)
      × (n.nmt_state.start_ons ≡ floats.quiet_nan)
      × (n.tpdo_data.one_shot ≡ floats.quiet_nan)

  write_node_again :
      (id : ℕ) (s : NodeData F × W) (w : W)
      → let n = (write_node floats drivers id s).0 in write_node floats drivers id (n, w) ≡ (n, w)
  unfolding write_node write_reset write_start write_tpdo
  write_node_again id (n, v) w = elim (Bool-cases (drivers.registered id)) [
    | inl e ↦ rw (e, laws.0) refl
    | inr e ↦ rw e refl
  ]

  -- A cycle sends a command once: a further cycle changes nothing and sends nothing, for every state
  -- of the nodes and of the drivers, until a controller sets a command again.
  pub write_again :
      (m : Nodes F) (w v : W)
      → write floats drivers ((write floats drivers m w).0) v ≡ ((write floats drivers m w).0, v)
  unfolding write
  write_again [] w v = refl
  write_again ((id, n) ∷ m) w v =
      let w' = (write_node floats drivers id (n, w)).1 in
      rw (write_node_again id (n, w) v, write_again m w' v) refl
