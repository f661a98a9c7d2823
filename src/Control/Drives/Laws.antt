-- ===== src/Control/Drives/Laws.antt =====
-- What a further cycle of `Cia402System` does (canopen_ros2_control/src/cia402_system.cpp).
use ros2_canopen.Base.{
  ℕ, ◌||◌, ◌≡◌, inl, inr, refl, arith, not, true, Option, none, some, [], ◌∷◌, Bool-cases, if_true,
  if_false, subst,
}
use Prim.{Unit, tt}
use ros2_canopen.Control.Value.{Floats, IsFloats}
use ros2_canopen.Control.Node.{NodeData}
use ros2_canopen.Control.System.{Nodes}
use ros2_canopen.Control.Drives.{
  MotorData, MotorDrivers, Motors, write_nmt, write_nodes, handle_commands, send_target,
  write_motor, write_motors, cons_node, cons_motor, with_nodes, then_motors, is_commanded, write,
}

module _ {F W : Type 0} (floats : Floats F) (drivers : MotorDrivers F W) where
  -- A cycle without commands.
  unfoldable pub send_targets : Motors F → W → W
  send_targets [] w = w
  send_targets (((id, channel), d) ∷ m) w =
      send_targets m (send_target floats drivers id channel d w)

module _ {F W : Type 0} (floats : Floats F) (laws : IsFloats floats)
    (drivers : MotorDrivers F W) where
  handle_commands_again :
      (id channel : ℕ) (s : MotorData F × W) (v : W)
      → let d = (handle_commands floats drivers id channel s).0 in
        handle_commands floats drivers id channel (d, v) ≡ (d, v)
  unfolding handle_commands
  handle_commands_again id channel (d, w) v = rw laws.0 refl

  write_motor_again :
      (id channel : ℕ) (s : MotorData F × W) (v : W)
      → let d = (write_motor floats drivers id channel s).0 in
        write_motor floats drivers id channel (d, v)
        ≡ (d, send_target floats drivers id channel d v)
  unfolding write_motor
  write_motor_again id channel (d, w) v = rw laws.0 refl

  -- What a further cycle makes of the nodes that a cycle leaves.
  unfoldable IsRepeated : Option (Nodes F × W) → Type 0
  IsRepeated none = Unit
  IsRepeated (some (m, w)) = (v : W) → write_nodes floats drivers m v ≡ some (m, v)

  cons_node-IsRepeated :
      (id : ℕ) (s : NodeData F × W) (o : Option (Nodes F × W))
      → (drivers.nodes.registered id || not (is_commanded floats drivers s.0)) ≡ true
      → IsRepeated o
      → IsRepeated (cons_node floats drivers id ((write_nmt floats drivers id s).0) o)
  unfolding write_nodes IsRepeated
  cons_node-IsRepeated id s none e h = tt
  cons_node-IsRepeated id s (some (m, w)) e h = λ v.
      rw (laws.0, h v)
        (if_true
          (λ (o : Option (Nodes F × W)). o ≡ some ((id, (write_nmt floats drivers id s).0) ∷ m, v))
          (drivers.nodes.registered id || true) _ none (ground arith) refl)

  write_nodes-IsRepeated : (m : Nodes F) (w : W) → IsRepeated (write_nodes floats drivers m w)
  unfolding write_nodes IsRepeated
  write_nodes-IsRepeated [] w = λ v. refl
  write_nodes-IsRepeated ((id, n) ∷ m) w =
      let present = drivers.nodes.registered id || not (is_commanded floats drivers n) in
      let w' = (write_nmt floats drivers id (n, w)).1 in
      elim (Bool-cases present) [
        | inl e ↦ if_true IsRepeated present _ none e (
            cons_node-IsRepeated id (n, w) (write_nodes floats drivers m w') e
              (write_nodes-IsRepeated m w'))
        | inr e ↦ if_false IsRepeated present _ none e tt
      ]

  unfoldable IsResent : Option (Motors F × W) → Type 0
  IsResent none = Unit
  IsResent (some (m, w)) =
      (v : W) → write_motors floats drivers m v ≡ some (m, send_targets floats drivers m v)

  cons_motor-IsResent :
      (id channel : ℕ) (s : MotorData F × W) (o : Option (Motors F × W))
      → drivers.nodes.registered id ≡ true
      → IsResent o
      → IsResent
          (cons_motor floats drivers (id, channel) ((write_motor floats drivers id channel s).0) o)
  unfolding write_motors IsResent send_targets
  cons_motor-IsResent id channel s none e h = tt
  cons_motor-IsResent id channel s (some (m, w)) e h = λ v.
      let d = (write_motor floats drivers id channel s).0 in
      rw (laws.0, e, h (send_target floats drivers id channel d v)) refl

  write_motors-IsResent : (m : Motors F) (w : W) → IsResent (write_motors floats drivers m w)
  unfolding write_motors IsResent send_targets
  write_motors-IsResent [] w = λ v. refl
  write_motors-IsResent (((id, channel), d) ∷ m) w =
      let present = drivers.nodes.registered id in
      let w' = (write_motor floats drivers id channel (d, w)).1 in
      elim (Bool-cases present) [
        | inl e ↦ if_true IsResent present _ none e (
            cons_motor-IsResent id channel (d, w) (write_motors floats drivers m w') e
              (write_motors-IsResent m w'))
        | inr e ↦ if_false IsResent present _ none e tt
      ]

  unfoldable IsRepeatable : Option (Nodes F × Motors F × W) → Type 0
  IsRepeatable none = Unit
  IsRepeatable (some (nodes, motors, w)) =
      (v : W)
      → write floats drivers nodes motors v
        ≡ some (nodes, motors, send_targets floats drivers motors v)

  with_nodes-IsRepeatable :
      (nodes : Nodes F) (w : W) (o : Option (Motors F × W))
      → IsRepeated (some (nodes, w))
      → IsResent o
      → IsRepeatable (with_nodes floats drivers nodes o)
  unfolding IsRepeatable IsRepeated IsResent write
  with_nodes-IsRepeatable nodes w none h k = tt
  with_nodes-IsRepeatable nodes w (some (motors, w')) h k = λ v. rw (h v, k v) refl

  then_motors-IsRepeatable :
      (motors : Motors F) (o : Option (Nodes F × W))
      → IsRepeated o
      → IsRepeatable (then_motors floats drivers o motors)
  unfolding IsRepeatable
  then_motors-IsRepeatable motors none h = tt
  then_motors-IsRepeatable motors (some (nodes, w)) h =
      with_nodes-IsRepeatable nodes w (write_motors floats drivers motors w) h
        (write_motors-IsResent motors w)

  write-IsRepeatable :
      (nodes : Nodes F) (motors : Motors F) (w : W)
      → IsRepeatable (write floats drivers nodes motors w)
  unfolding write
  write-IsRepeatable nodes motors w =
      then_motors-IsRepeatable motors (write_nodes floats drivers nodes w)
        (write_nodes-IsRepeated nodes w)

  -- After a cycle that comes to its end, for every state of nodes, motors and drivers: a further cycle
  -- leaves all the data as they are and sends each motor the target of the
  -- mode it is in, and nothing else.
  pub write_again :
      (nodes nodes' : Nodes F) (motors motors' : Motors F) (w w' v : W)
      → write floats drivers nodes motors w ≡ some (nodes', motors', w')
      → write floats drivers nodes' motors' v
        ≡ some (nodes', motors', send_targets floats drivers motors' v)
  unfolding IsRepeatable
  write_again nodes nodes' motors motors' w w' v e =
      subst IsRepeatable e (write-IsRepeatable nodes motors w) v
