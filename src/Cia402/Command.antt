-- ===== src/Cia402/Command.antt =====
-- The control words that ask for a state change: canopen_402_driver/src/command.cpp and
-- canopen_402_driver/include/canopen_402_driver/command.hpp.
pub mod Cw
pub mod Table
use ros2_canopen.Base.{
  ℕ, ◌^◌, Bool, true, false, ◌&&◌, ◌==◌, if◌then◌else◌, bit_and, bit_or, Option, none, some, List,
  [], ◌∷◌, is_some,
}
use ros2_canopen.Base.Bits.{◌or◌, complement16}
use ros2_canopen.Cia402.State.{
  InternalState, start, not_ready_to_switch_on, switch_on_disabled, ready_to_switch_on, switched_on,
  operation_enable, quick_stop_active, fault_reaction_active, fault, same_state,
}

pub record Op : Type 0 where
  pub to_set : ℕ
  pub to_reset : ℕ

-- `Op::operator()` on a uint16_t.
unfoldable pub apply : Op → ℕ → ℕ
apply op val = bit_or (bit_and val (complement16 op.to_reset)) op.to_set

-- The flat map of the transitions, keyed by the pair of states.
abbrev pub TransitionTable : Type 0
TransitionTable = List ((InternalState × InternalState) × Op)

unfoldable pub lookup : TransitionTable → InternalState → InternalState → Option Op
lookup [] from to = none
lookup (((a, b), op) ∷ t) from to =
    if same_state a from && same_state b to then some op else lookup t from to

-- `insert` of the map leaves an entry that is there as it is.
unfoldable pub add : TransitionTable → InternalState → InternalState → Op → TransitionTable
unfolding lookup
add t from to op = if is_some (lookup t from to) then t else ((from, to), op) ∷ t

unfoldable pub disable_voltage : Op
disable_voltage = record { to_set = 0; to_reset = 2 ^ Cw.fault_reset or 2 ^ Cw.enable_voltage }

unfoldable pub automatic : Op
automatic = record { to_set = 0; to_reset = 0 }

unfoldable pub shutdown : Op
shutdown = record {
  to_set = 2 ^ Cw.quick_stop or 2 ^ Cw.enable_voltage;
  to_reset = 2 ^ Cw.fault_reset or 2 ^ Cw.switch_on;
}

unfoldable pub switch_on : Op
switch_on = record {
  to_set = 2 ^ Cw.quick_stop or 2 ^ Cw.enable_voltage or 2 ^ Cw.switch_on;
  to_reset = 2 ^ Cw.fault_reset or 2 ^ Cw.enable_operation;
}

unfoldable pub enable_operation : Op
enable_operation = record {
  to_set =
      2 ^ Cw.quick_stop or 2 ^ Cw.enable_voltage or 2 ^ Cw.switch_on or 2 ^ Cw.enable_operation;
  to_reset = 2 ^ Cw.fault_reset;
}

unfoldable pub quickstop : Op
quickstop = record {
  to_set = 2 ^ Cw.enable_voltage;
  to_reset = 2 ^ Cw.fault_reset or 2 ^ Cw.quick_stop;
}

unfoldable pub fault_reset : Op
fault_reset = record { to_set = 2 ^ Cw.fault_reset; to_reset = 0 }

-- The constructor `TransitionTable::TransitionTable`.
unfoldable pub transitions : TransitionTable
unfolding add disable_voltage automatic shutdown switch_on enable_operation quickstop fault_reset
transitions =
    let t7 = add [] ready_to_switch_on switch_on_disabled disable_voltage in
    let t9 = add t7 operation_enable switch_on_disabled disable_voltage in
    let t10 = add t9 switched_on switch_on_disabled disable_voltage in
    let t12 = add t10 quick_stop_active switch_on_disabled disable_voltage in
    let t0 = add t12 start not_ready_to_switch_on automatic in
    let t1 = add t0 not_ready_to_switch_on switch_on_disabled automatic in
    let t14 = add t1 fault_reaction_active fault automatic in
    let t2 = add t14 switch_on_disabled ready_to_switch_on shutdown in
    let t6 = add t2 switched_on ready_to_switch_on shutdown in
    let t8 = add t6 operation_enable ready_to_switch_on shutdown in
    let t3 = add t8 ready_to_switch_on switched_on switch_on in
    let t5 = add t3 operation_enable switched_on switch_on in
    let t4 = add t5 switched_on operation_enable enable_operation in
    let t16 = add t4 quick_stop_active operation_enable enable_operation in
    let q7 = add t16 ready_to_switch_on quick_stop_active quickstop in
    let q10 = add q7 switched_on quick_stop_active quickstop in
    let q11 = add q10 operation_enable quick_stop_active quickstop in
    add q11 fault switch_on_disabled fault_reset

-- The `throw` behind the `switch` is out of reach of the enumerators.
unfoldable pub next_state_for_enabling : InternalState → InternalState
next_state_for_enabling start = not_ready_to_switch_on
next_state_for_enabling fault = switch_on_disabled
next_state_for_enabling not_ready_to_switch_on = switch_on_disabled
next_state_for_enabling switch_on_disabled = ready_to_switch_on
next_state_for_enabling ready_to_switch_on = switched_on
next_state_for_enabling switched_on = operation_enable
next_state_for_enabling quick_stop_active = operation_enable
next_state_for_enabling operation_enable = operation_enable
next_state_for_enabling fault_reaction_active = fault

-- What `setTransition` leaves: its result, the control word, and what `next` points to (`none`
-- where the caller passes the null pointer).
pub record Transition : Type 0 where
  pub success : Bool
  pub cw : ℕ
  pub next : Option InternalState

-- `*next = hop`, with the hop towards Operation_Enable.
abbrev pub hop_for : InternalState → InternalState → Option InternalState → InternalState
hop_for from to none = to
hop_for from to (some _) =
    if same_state to operation_enable then next_state_for_enabling from else to

abbrev pub write_next : Option InternalState → InternalState → Option InternalState
write_next none hop = none
write_next (some _) hop = some hop

-- `transitions_.get(from, hop)(cw)`; `at` throws on a missing pair, and the throw is caught.
abbrev pub run_transition : Option Op → ℕ → Option InternalState → Transition
run_transition none cw next = record { success = false; cw = cw; next = next }
run_transition (some op) cw next = record { success = true; cw = apply op cw; next = next }

unfoldable pub set_transition :
    ℕ → InternalState → InternalState → Option InternalState → Transition
unfolding transitions lookup next_state_for_enabling apply
set_transition cw from to next =
    let hop = hop_for from to next in
    if same_state from to
    then record { success = true; cw = cw; next = next }
    else run_transition (lookup transitions from hop) cw (write_next next hop)
