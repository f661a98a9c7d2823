-- ===== src/Control/System/Exports.antt =====
-- The interfaces that the controller asks for are exported by the hardware interface.
use mathlib.Core.List.{Memᴰ}
use mathlib.Core.List.Memᴰ.{head, tail, append_left, append_right, not-nil}
use ros2_canopen.Base.{ℕ, ◌%◌, ◌≡◌, ap, subst, some, List, [], ◌∷◌}
use ros2_canopen.Control.System.{
  Joint, CommandName, StateName, of_joint, interfaces, command_names, state_names,
  export_command_interfaces, export_state_interfaces,
}
use ros2_canopen.Control.Proxy.{required_commands, required_states}

interfaces-Memᴰ :
    {N : Type 0} (joint node : ℕ) (name : N) (names : List N)
    → Memᴰ name names
    → Memᴰ (record { joint = joint; name = name; node = node }) (interfaces joint node names)
interfaces-Memᴰ joint node name [] m = absurd (not-nil m)
interfaces-Memᴰ joint node name (x ∷ names) (head e) =
    head (ap (λ y. record { joint = joint; name = y; node = node }) e)
interfaces-Memᴰ joint node name (x ∷ names) (tail m) =
    tail (interfaces-Memᴰ joint node name names m)

of_joint-Memᴰ :
    {N : Type 0} (j k : Joint) (id : ℕ) (name : N) (names : List N)
    → j ≡ k
    → j.node_id ≡ some id
    → Memᴰ name names
    → Memᴰ
        (record { joint = j.name; name = name; node = id % 256 })
        (of_joint names k.name k.node_id)
of_joint-Memᴰ j k id name names e n m =
    subst
      (λ x.
        Memᴰ (record { joint = j.name; name = name; node = id % 256 })
          (of_joint names x.name x.node_id))
      e (rw n (interfaces-Memᴰ j.name (id % 256) name names m))

exported_command :
    (joints : List Joint) (j : Joint) (id : ℕ) (name : CommandName)
    → Memᴰ j joints
    → j.node_id ≡ some id
    → Memᴰ name command_names
    → Memᴰ
        (record { joint = j.name; name = name; node = id % 256 })
        (export_command_interfaces joints)
unfolding export_command_interfaces
exported_command [] j id name t n m = absurd (not-nil t)
exported_command (k ∷ joints) j id name (head e) n m =
    append_left (export_command_interfaces joints) (of_joint-Memᴰ j k id name command_names e n m)
exported_command (k ∷ joints) j id name (tail t) n m =
    append_right (of_joint command_names k.name k.node_id) (exported_command joints j id name t n m)

exported_state :
    (joints : List Joint) (j : Joint) (id : ℕ) (name : StateName)
    → Memᴰ j joints
    → j.node_id ≡ some id
    → Memᴰ name state_names
    → Memᴰ
        (record { joint = j.name; name = name; node = id % 256 })
        (export_state_interfaces joints)
unfolding export_state_interfaces
exported_state [] j id name t n m = absurd (not-nil t)
exported_state (k ∷ joints) j id name (head e) n m =
    append_left (export_state_interfaces joints) (of_joint-Memᴰ j k id name state_names e n m)
exported_state (k ∷ joints) j id name (tail t) n m =
    append_right (of_joint state_names k.name k.node_id) (exported_state joints j id name t n m)

-- Each interface that the controller of a joint with a node asks for, for a command or a state, is
-- exported, and points to the data of that node, whose number is cut to a byte.
pub required_exported :
    (joints : List Joint) (j : Joint) (id : ℕ) (command : CommandName) (state : StateName)
    → Memᴰ j joints
    → j.node_id ≡ some id
    → Memᴰ command required_commands
    → Memᴰ state required_states
    → Memᴰ
        (record { joint = j.name; name = command; node = id % 256 })
        (export_command_interfaces joints)
      × Memᴰ
          (record { joint = j.name; name = state; node = id % 256 })
          (export_state_interfaces joints)
required_exported joints j id command state m n c s = (
  exported_command joints j id command m n c,
  exported_state joints j id state m n (append_left {s = required_states} _ s),
)
