-- ===== src/Control/Proxy/Loop.antt =====
-- The network services of the controller, against the cycles of both hardware interfaces.
use ros2_canopen.Base.{
  ℕ, zero, suc, ◌≡◌, refl, not, Bool, true, false, Option, none, some, List, [], ◌∷◌, if_false,
}
use ros2_canopen.Base.Int.{pos}
use ros2_canopen.Control.Value.{Floats, IsFloats, of_bool}
use ros2_canopen.Control.Node.{NodeData, reset_command, start_command}
use ros2_canopen.Control.System.{
  Drivers, write_reset, write_start, write_tpdo, write_node, nmt_start, nmt_start_fbk, command_of,
  put_command,
}
use ros2_canopen.Control.Drives.{MotorDrivers, write_nmt}
use ros2_canopen.Control.Proxy.{command_value, wait_for, on_nmt_state_reset, on_nmt_state_start}

module _ {F : Type 0} (floats : Floats F) (laws : IsFloats floats) where
  of_bool_number : (b : Bool) → floats.is_nan (of_bool floats b) ≡ false
  of_bool_number true = laws.1 (pos 1)
  of_bool_number false = laws.1 (pos 0)

  truth-of_bool : (b : Bool) → floats.truth (of_bool floats b) ≡ b
  truth-of_bool true = laws.3 (pos 1)
  truth-of_bool false = laws.3 (pos 0)

  command_number : floats.is_nan (command_value floats) ≡ false
  command_number = laws.1 (pos 1)

-- What a service responds, if it does.
abbrev pub response : {F W : Type 0} → Option (Bool × NodeData F × W) → Option Bool
response none = none
response (some (ok, n, w)) = some ok

module _ {F W : Type 0} (floats : Floats F) (laws : IsFloats floats) (drivers : Drivers W) where
  reset_responds :
      (id : ℕ) (n : NodeData F) (w : W)
      → drivers.registered id ≡ true
      → response (on_nmt_state_reset floats (write_node floats drivers id ∷ []) (n, w))
        ≡ some (drivers.reset_node_nmt_command id w).0
  unfolding on_nmt_state_reset write_node write_reset write_start write_tpdo
  reset_responds id n w e =
      let ok = (drivers.reset_node_nmt_command id w).0 in
      rw
        (
          command_number floats laws,
          e,
          laws.0,
          of_bool_number floats laws ok,
          truth-of_bool floats laws ok,
        )
        refl

  start_responds :
      (id : ℕ) (n : NodeData F) (w : W)
      → drivers.registered id ≡ true
      → n.nmt_state.reset_ons ≡ floats.quiet_nan
      → n.nmt_state.start_fbk ≡ floats.quiet_nan
      → response (on_nmt_state_start floats (write_node floats drivers id ∷ []) (n, w))
        ≡ some (drivers.start_node_nmt_command id w).0
  unfolding on_nmt_state_start write_node write_reset write_start write_tpdo
  start_responds id n w e a b =
      let ok = (drivers.start_node_nmt_command id w).0 in
      rw
        (
          b,
          laws.0,
          e,
          a,
          laws.0,
          command_number floats laws,
          of_bool_number floats laws ok,
          truth-of_bool floats laws ok,
          of_bool_number floats laws ok,
        )
        refl

  -- The parts of a cycle that finds a command: it is set back, then the driver is asked, and the
  -- feedback stored.
  abbrev pub reset_taken : NodeData F × W → NodeData F × W
  reset_taken (n, w) = (record n { nmt_state = (reset_command floats n.nmt_state).1 }, w)

  abbrev pub start_taken : NodeData F × W → NodeData F × W
  start_taken (n, w) = (record n { nmt_state = (start_command floats n.nmt_state).1 }, w)

  abbrev pub start_answered : ℕ → NodeData F × W → NodeData F × W
  start_answered id (n, w) =
      let (ok, w') = drivers.start_node_nmt_command id w in
      (record n { nmt_state = record n.nmt_state { start_fbk = of_bool floats ok } }, w')

  start_in_parts :
      (id : ℕ) (n : NodeData F) (w : W)
      → n.nmt_state.start_fbk ≡ floats.quiet_nan
      → response (on_nmt_state_start floats (start_taken ∷ start_answered id ∷ []) (n, w))
        ≡ some (drivers.start_node_nmt_command id w).0
  unfolding on_nmt_state_start
  start_in_parts id n w b =
      let ok = (drivers.start_node_nmt_command id w).0 in
      rw
        (
          b,
          laws.0,
          of_bool_number floats laws ok,
          truth-of_bool floats laws ok,
          of_bool_number floats laws ok,
        )
        refl

  -- The network services of the controller on `CanopenSystem`, for a node with a registered driver and
  -- no reset and no feedback pending. A service that looks at its interfaces before and after the first
  -- cycle, but not within it, responds what the driver answered, be it the reset or the start. The start
  -- service does so too where it also looks after the cycle has set the command back and before it has
  -- stored the feedback. The reset service that looks there responds false, whatever the driver answers.
  pub services_respond :
      (id : ℕ) (n : NodeData F) (w : W)
      → drivers.registered id ≡ true
      → n.nmt_state.reset_ons ≡ floats.quiet_nan
      → n.nmt_state.start_fbk ≡ floats.quiet_nan
      → n.nmt_state.reset_fbk ≡ floats.quiet_nan
      → (response (on_nmt_state_reset floats (write_node floats drivers id ∷ []) (n, w))
          ≡ some (drivers.reset_node_nmt_command id w).0)
        × (response (on_nmt_state_start floats (write_node floats drivers id ∷ []) (n, w))
            ≡ some (drivers.start_node_nmt_command id w).0)
        × (response (on_nmt_state_start floats (start_taken ∷ start_answered id ∷ []) (n, w))
            ≡ some (drivers.start_node_nmt_command id w).0)
        × (response (on_nmt_state_reset floats (reset_taken ∷ []) (n, w)) ≡ some false)
  unfolding on_nmt_state_reset
  services_respond id n w e a b c = (
    reset_responds id n w e,
    start_responds id n w e a b,
    start_in_parts id n w b,
    rw (command_number floats laws, laws.0, c, laws.0) refl,
  )

abbrev pub repeat : {A : Type 0} → ℕ → A → List A
repeat zero x = []
repeat (suc k) x = x ∷ repeat k x

module _ {F W : Type 0} (floats : Floats F) (laws : IsFloats floats)
    (drivers : MotorDrivers F W) where
  start_waits :
      (id k : ℕ) (s : NodeData F × W)
      → s.0.nmt_state.start_fbk ≡ floats.quiet_nan
      → wait_for
          (λ t. not (floats.is_nan (command_of nmt_start_fbk t.0)))
          (repeat k (write_nmt floats drivers id))
          s
        ≡ none
  unfolding write_nmt
  start_waits id zero (n, w) e = rw (e, laws.0) refl
  start_waits id (suc k) (n, w) e =
      let idle : not (floats.is_nan n.nmt_state.start_fbk) ≡ false = rw (e, laws.0) refl in
      if_false (λ (o : Option (NodeData F × W)). o ≡ none)
        (not (floats.is_nan n.nmt_state.start_fbk)) _ _ idle
        (start_waits id k (write_nmt floats drivers id (n, w)) e)

  -- The same services on `Cia402System`, whose cycle keeps no results of network commands: where no
  -- feedback is pending, the start service never responds, after any number of cycles, and the reset
  -- service responds false after the first, whatever the driver answered.
  pub services_unanswered :
      (id k : ℕ) (n : NodeData F) (w : W)
      → n.nmt_state.start_fbk ≡ floats.quiet_nan
      → n.nmt_state.reset_fbk ≡ floats.quiet_nan
      → (response (on_nmt_state_start floats (repeat k (write_nmt floats drivers id)) (n, w))
          ≡ none)
        × (response (on_nmt_state_reset floats (write_nmt floats drivers id ∷ []) (n, w))
            ≡ some false)
  unfolding on_nmt_state_start on_nmt_state_reset write_nmt
  services_unanswered id k n w a b = (
    rw (start_waits id k (put_command nmt_start (command_value floats) n, w) a) refl,
    rw (command_number floats laws, laws.0, b, laws.0) refl,
  )
