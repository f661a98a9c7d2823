-- ===== src/Control/Proxy.antt =====
-- The controller `CanopenProxyController` (canopen_ros2_controllers/src/canopen_proxy_controller.cpp)
-- on the data of its joint's node, which its interfaces point to. Lely's enumeration of network
-- states is a parameter; publishers and services are created elsewhere, and log lines left out.
pub mod Laws
pub mod Loop
use ros2_canopen.Base.{
  ℕ, ◌==◌, ◌&&◌, not, Bool, true, false, if◌then◌else◌, Option, none, some, List, [], ◌∷◌, ◌++◌,
}
use ros2_canopen.Base.Int.{ℤ, pos, negsuc}
use ros2_canopen.Bridge.Dictionary.{CoData}
use ros2_canopen.Nodes.Proxy.{
  NmtState, bootup, preop, reset_comm, reset_node, start, stop, toggle, unknown, Message, nmt_state,
  rpdo,
}
use ros2_canopen.Control.Value.{Floats, of_nat, cast_unsigned}
use ros2_canopen.Control.Node.{NodeData}
use ros2_canopen.Control.System.{
  CommandName, tpdo_index, tpdo_subindex, tpdo_value, tpdo_ons, nmt_reset, nmt_reset_fbk, nmt_start,
  nmt_start_fbk, StateName, rpdo_index, rpdo_subindex, rpdo_value, nmt_state_name, command_of,
  put_command, state_of,
}

-- `input_cmd_` is `none` for the null pointer.
pub record Controller : Type 0 where
  pub input_cmd : Option CoData
  pub nmt_state_actual : NmtState

abbrev pub make : Controller
make = record { input_cmd = none; nmt_state_actual = bootup }

-- What the real-time calls of a cycle do: whether an interface can be read or written, and whether a
-- message is taken by its publisher.
pub record Access : Type 0 where
  pub readable : StateName → Bool
  pub writable : CommandName → Bool
  pub nmt_published : Bool
  pub rpdo_published : Bool

abbrev pub required_commands : List CommandName
required_commands =
    tpdo_index ∷ tpdo_subindex ∷ tpdo_value ∷ tpdo_ons ∷ nmt_reset ∷ nmt_reset_fbk ∷ nmt_start
    ∷ nmt_start_fbk ∷ []

abbrev pub required_states : List StateName
required_states = rpdo_index ∷ rpdo_subindex ∷ rpdo_value ∷ nmt_state_name ∷ []

-- The texts of the states, compared.
abbrev pub number : NmtState → ℕ
number bootup = 0
number preop = 1
number reset_comm = 2
number reset_node = 3
number start = 4
number stop = 5
number toggle = 6
number unknown = 7

abbrev pub same_text : NmtState → NmtState → Bool
same_text s t = number s == number t

-- The subscription's callback, and `on_activate`.
abbrev pub on_command : CoData → Controller → Controller
on_command d c = record c { input_cmd = some d }

abbrev pub on_activate : Controller → Controller
on_activate c = record c { input_cmd = none }

module _ {F : Type 0} (floats : Floats F) where
  abbrev pub command_value : F
  command_value = of_nat floats 1

  abbrev pub set_value : Access → CommandName → F → NodeData F → NodeData F
  set_value access name x n = if access.writable name then put_command name x n else n

  -- `on_deactivate`
  unfoldable pub set_all : Access → List CommandName → NodeData F → NodeData F
  set_all access [] n = n
  set_all access (name ∷ names) n = set_all access names (set_value access name floats.quiet_nan n)

  unfoldable pub on_deactivate : Access → NodeData F → NodeData F
  unfolding set_all
  on_deactivate access n = set_all access required_commands n

  -- The command is written to the interfaces one by one, and forgotten.
  abbrev pub put_input : Access → Option CoData → NodeData F → NodeData F
  put_input access none n = n
  put_input access (some d) n = set_value access tpdo_ons command_value (
      set_value access tpdo_value (of_nat floats d.word) (
        set_value access tpdo_subindex (of_nat floats d.subindex)
          (set_value access tpdo_index (of_nat floats d.index) n)))

  -- The received data, by `static_cast` of the doubles.
  abbrev pub received : NodeData F → CoData
  received n = record {
    index = cast_unsigned floats 65536 (state_of floats rpdo_index n);
    subindex = cast_unsigned floats 256 (state_of floats rpdo_subindex n);
    word = cast_unsigned floats 4294967296 (state_of floats rpdo_value n);
  }

  abbrev pub rpdo_messages : Access → NodeData F → List Message
  rpdo_messages access n =
      if access.readable rpdo_index && (access.readable rpdo_subindex && access.readable rpdo_value)
      then (if access.rpdo_published then rpdo (received n) ∷ [] else [])
      else []

  module _ (nmt_of : ℤ → NmtState) where
    -- The state that the hardware interface shows.
    abbrev pub shown : NodeData F → NmtState
    shown n =
        nmt_of (floats.cast (negsuc 2147483647) (pos 2147483647) (state_of floats nmt_state_name n))

    abbrev pub is_changed : Access → Controller → NodeData F → Bool
    is_changed access c n =
        access.readable nmt_state_name && not (same_text c.nmt_state_actual (shown n))

    -- A change is remembered whether or not it could be published.
    unfoldable pub update :
        Access → Controller → NodeData F → Controller × NodeData F × List Message
    update access c n =
        let changed = is_changed access c n in
        (
          record {
            input_cmd = none;
            nmt_state_actual = if changed then shown n else c.nmt_state_actual;
          },
          put_input access c.input_cmd n,
          (if changed && access.nmt_published then nmt_state (shown n) ∷ [] else [])
              ++ rpdo_messages access n,
        )

-- The state that a service thread and the control loop share, and the turns that the loop takes
-- between two looks of the thread: a turn is a cycle, several, or the part of a cycle that lies between
-- two looks, since the thread shares no lock with the loop.
abbrev pub wait_for : {S : Type 0} → (S → Bool) → List (S → S) → S → Option S
wait_for test [] s = if test s then some s else none
wait_for test (turn ∷ turns) s = if test s then some s else wait_for test turns (turn s)

module _ {F : Type 0} (floats : Floats F) where
  -- The services' parts, where the interfaces can be read and written. The feedback is taken, and set
  -- back.
  abbrev pub take_feedback : CommandName → NodeData F → Bool × NodeData F
  take_feedback name n = (
    not (floats.is_nan (command_of name n)) && floats.truth (command_of name n),
    put_command name floats.quiet_nan n,
  )

  module _ {W : Type 0} where
    abbrev pub answer : CommandName → Option (NodeData F × W) → Option (Bool × NodeData F × W)
    answer name none = none
    answer name (some (n, w)) = let (ok, n') = take_feedback name n in some (ok, n', w)

    -- It waits until the command is set back; `none` is a service that still waits.
    unfoldable pub on_nmt_state_reset :
        List (NodeData F × W → NodeData F × W) → NodeData F × W → Option (Bool × NodeData F × W)
    on_nmt_state_reset turns (n, w) = answer nmt_reset_fbk (
        wait_for (λ s. floats.is_nan (command_of nmt_reset s.0)) turns
          (put_command nmt_reset (command_value floats) n, w))

    -- It waits until there is a feedback.
    unfoldable pub on_nmt_state_start :
        List (NodeData F × W → NodeData F × W) → NodeData F × W → Option (Bool × NodeData F × W)
    on_nmt_state_start turns (n, w) = answer nmt_start_fbk (
        wait_for (λ s. not (floats.is_nan (command_of nmt_start_fbk s.0))) turns
          (put_command nmt_start (command_value floats) n, w))
