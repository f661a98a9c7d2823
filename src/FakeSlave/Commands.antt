-- ===== src/FakeSlave/Commands.antt =====
-- The simulated drive's whole table of commands, its invariant, and the driver's commands to it
-- (canopen_fake_slaves/include/canopen_fake_slaves/cia402_slave.hpp with
-- canopen_402_driver/src/command.cpp).
use ros2_canopen.Base.{ℕ, ◌≡◌, ◌≢◌, refl, Bool, true, false, none, some, sym, subst}
use ros2_canopen.Cia402.State.{
  InternalState, start, not_ready_to_switch_on, switch_on_disabled, ready_to_switch_on, switched_on,
  operation_enable, quick_stop_active, fault_reaction_active, fault, decode,
}
use ros2_canopen.Cia402.State.Decode.{Shows, Shows-decode}
use ros2_canopen.Cia402.Command.Table.{
  Request, Encodes, request, coded, op_of, set_transition_lem, apply-Encodes,
}
use ros2_canopen.Cia402.Command.Table
use ros2_canopen.Cia402.Command.{set_transition, apply}
use ros2_canopen.FakeSlave.{
  Slave, set_switch_on_disabled, set_ready_to_switch_on, set_switch_on, set_operation_enabled,
  set_quick_stop, by_state, when, follow_mode, enabled_commands, set_new_status_word_and_state,
  on_write_control_word, on_switch_on_disabled, on_ready_to_switch_on, on_switched_on,
  on_operation_enabled, on_quickstop_active,
}
use ros2_canopen.FakeSlave.Laws.{
  Enters, IsConsistent, follow_mode-Enters, from_switch_on_disabled, ready_disable, ready_switch_on,
  switched_on_disable, switched_on_shutdown, switched_on_enable, quick_stop_enable,
  quick_stop_disable, enabled_disable, enabled_shutdown, enabled_switch_on, enabled_quick_stop,
  set_ready_to_switch_on-Enters, set_switch_on-Enters, set_operation_enabled-Enters,
  set_quick_stop-Enters, set_switch_on_disabled-Enters,
}

-- The transitions that a command makes in the simulated drive.
pub data Obeys : InternalState → InternalState → Request → Type 0 where
  disabled_shutdown : Obeys switch_on_disabled ready_to_switch_on Table.shutdown
  ready_disable_voltage : Obeys ready_to_switch_on switch_on_disabled Table.disable_voltage
  ready_to_switched_on : Obeys ready_to_switch_on switched_on Table.switch_on
  on_disable_voltage : Obeys switched_on switch_on_disabled Table.disable_voltage
  on_shutdown : Obeys switched_on ready_to_switch_on Table.shutdown
  on_enable : Obeys switched_on operation_enable Table.enable_operation
  enable_disable_voltage : Obeys operation_enable switch_on_disabled Table.disable_voltage
  enable_shutdown : Obeys operation_enable ready_to_switch_on Table.shutdown
  enable_switch_on : Obeys operation_enable switched_on Table.switch_on
  enable_quick_stop : Obeys operation_enable quick_stop_active Table.quick_stop
  quick_stop_enable_operation : Obeys quick_stop_active operation_enable Table.enable_operation
  quick_stop_disable_voltage : Obeys quick_stop_active switch_on_disabled Table.disable_voltage

Obeys-request : {from to : InternalState} {r : Request} → Obeys from to r → request from to ≡ some r
Obeys-request disabled_shutdown = refl
Obeys-request ready_disable_voltage = refl
Obeys-request ready_to_switched_on = refl
Obeys-request on_disable_voltage = refl
Obeys-request on_shutdown = refl
Obeys-request on_enable = refl
Obeys-request enable_disable_voltage = refl
Obeys-request enable_shutdown = refl
Obeys-request enable_switch_on = refl
Obeys-request enable_quick_stop = refl
Obeys-request quick_stop_enable_operation = refl
Obeys-request quick_stop_disable_voltage = refl

Obeys-coded : {from to : InternalState} {r : Request} → Obeys from to r → coded from to ≡ some r
Obeys-coded disabled_shutdown = refl
Obeys-coded _ = refl

by_state-Enters :
    {from to : InternalState} {r : Request} (o : Obeys from to r) (s : Slave)
    → Encodes r s.control_word
    → Enters to s (by_state from s)
unfolding on_operation_enabled
by_state-Enters disabled_shutdown s e = from_switch_on_disabled s e
by_state-Enters ready_disable_voltage s e = ready_disable s e
by_state-Enters ready_to_switched_on s e = ready_switch_on s e
by_state-Enters on_disable_voltage s e = switched_on_disable s e
by_state-Enters on_shutdown s e = switched_on_shutdown s e
by_state-Enters on_enable s e = switched_on_enable s e
by_state-Enters enable_disable_voltage s e =
    follow_mode-Enters s (enabled_commands s) _ (enabled_disable s e)
by_state-Enters enable_shutdown s e =
    follow_mode-Enters s (enabled_commands s) _ (enabled_shutdown s e)
by_state-Enters enable_switch_on s e =
    follow_mode-Enters s (enabled_commands s) _ (enabled_switch_on s e)
by_state-Enters enable_quick_stop s e =
    follow_mode-Enters s (enabled_commands s) _ (enabled_quick_stop s e)
by_state-Enters quick_stop_enable_operation s e = quick_stop_enable s e
by_state-Enters quick_stop_disable_voltage s e = quick_stop_disable s e

-- A control word that codes a command the simulated drive obeys in its state brings it into the
-- state the command leads to, and the status word entry of its object dictionary, as a master
-- reads it, has the standard's bit pattern of that state.
pub on_write_control_word-Obeys :
    (s : Slave) (to : InternalState) (r : Request) (cw : ℕ)
    → Obeys s.state to r
    → Encodes r cw
    → ((on_write_control_word cw s).state ≡ to)
      × Shows to (on_write_control_word cw s).status_word_entry
unfolding on_write_control_word set_new_status_word_and_state
on_write_control_word-Obeys s to r cw o e =
    let entered = by_state-Enters o (record s { control_word = cw }) e in (entered.0, entered.1)

when-IsConsistent :
    (b : Bool) (f : Slave → Slave) (s : Slave)
    → ((t : Slave) → IsConsistent (f t))
    → IsConsistent s
    → IsConsistent (when b f s)
when-IsConsistent true f s h k = h s
when-IsConsistent false f s h k = k

Enters-IsConsistent : {to : InternalState} (s t : Slave) → Enters to s t → IsConsistent t
Enters-IsConsistent s t entered = subst (λ q. Shows q t.status_word) (sym entered.0) entered.1

set_ready_to_switch_on-IsConsistent : (s : Slave) → IsConsistent (set_ready_to_switch_on s)
set_ready_to_switch_on-IsConsistent s =
    Enters-IsConsistent s (set_ready_to_switch_on s) (set_ready_to_switch_on-Enters s)

set_switch_on-IsConsistent : (s : Slave) → IsConsistent (set_switch_on s)
set_switch_on-IsConsistent s = Enters-IsConsistent s (set_switch_on s) (set_switch_on-Enters s)

set_operation_enabled-IsConsistent : (s : Slave) → IsConsistent (set_operation_enabled s)
set_operation_enabled-IsConsistent s =
    Enters-IsConsistent s (set_operation_enabled s) (set_operation_enabled-Enters s)

set_quick_stop-IsConsistent : (s : Slave) → IsConsistent (set_quick_stop s)
set_quick_stop-IsConsistent s = Enters-IsConsistent s (set_quick_stop s) (set_quick_stop-Enters s)

set_switch_on_disabled-IsConsistent : (s : Slave) → IsConsistent (set_switch_on_disabled s)
set_switch_on_disabled-IsConsistent s =
    Enters-IsConsistent s (set_switch_on_disabled s) (set_switch_on_disabled-Enters s)

ruleset consistent = (
  when-IsConsistent, set_ready_to_switch_on-IsConsistent, set_switch_on-IsConsistent,
  set_operation_enabled-IsConsistent, set_quick_stop-IsConsistent,
  set_switch_on_disabled-IsConsistent,
)

enabled_commands-IsConsistent : (s : Slave) → IsConsistent s → IsConsistent (enabled_commands s)
unfolding enabled_commands
enabled_commands-IsConsistent s h = search consistent

follow_mode-IsConsistent : (s : Slave) → IsConsistent s → IsConsistent (follow_mode s)
follow_mode-IsConsistent s h =
    Enters-IsConsistent s (follow_mode s) (follow_mode-Enters s s s.state (refl, h, refl))

by_state-IsConsistent :
    (from : InternalState) (s : Slave) → IsConsistent s → IsConsistent (by_state from s)
unfolding on_switch_on_disabled on_ready_to_switch_on on_switched_on on_operation_enabled
    on_quickstop_active
by_state-IsConsistent not_ready_to_switch_on s h = set_switch_on_disabled-IsConsistent s
by_state-IsConsistent switch_on_disabled s h = search consistent
by_state-IsConsistent ready_to_switch_on s h = search consistent
by_state-IsConsistent switched_on s h = search consistent
by_state-IsConsistent operation_enable s h =
    follow_mode-IsConsistent (enabled_commands s) (enabled_commands-IsConsistent s h)
by_state-IsConsistent quick_stop_active s h = search consistent
by_state-IsConsistent start s h = h
by_state-IsConsistent fault_reaction_active s h = h
by_state-IsConsistent fault s h = h

-- Every control word, whether it codes a command or not, leaves a status word that shows the state
-- of the simulated drive if the status word showed it before, and the status word entry of the
-- object dictionary, as a master decodes it, then gives the drive's state.
pub on_write_control_word-IsConsistent :
    (cw : ℕ) (s : Slave)
    → IsConsistent s
    → IsConsistent (on_write_control_word cw s)
      × (decode (on_write_control_word cw s).status_word_entry ≡ (on_write_control_word cw s).state)
unfolding on_write_control_word set_new_status_word_and_state
on_write_control_word-IsConsistent cw s h =
    let keep = by_state-IsConsistent s.state (record s { control_word = cw }) h in
    (keep, Shows-decode _ _ keep)

request_self : (from : InternalState) → request from from ≡ none
request_self start = refl
request_self not_ready_to_switch_on = refl
request_self switch_on_disabled = refl
request_self ready_to_switch_on = refl
request_self switched_on = refl
request_self operation_enable = refl
request_self quick_stop_active = refl
request_self fault_reaction_active = refl
request_self fault = refl

Obeys-ne : {from to : InternalState} {r : Request} → Obeys from to r → from ≢ to
Obeys-ne {from} {to} o p = cc (p, Obeys-request o, request_self from)

-- The driver's `setTransition` to a state that the simulated drive can be commanded into succeeds
-- whatever the control word was, and the word it gives, once written, brings the drive there: the
-- drive is in the target, and the driver decodes the target from the status word entry.
pub set_transition-on_write :
    (s : Slave) (to : InternalState) (r : Request) (cw : ℕ)
    → Obeys s.state to r
    → let t = set_transition cw s.state to none in
      let s' = on_write_control_word t.cw s in
      (t.success ≡ true) × (s'.state ≡ to) × (decode s'.status_word_entry ≡ to)
set_transition-on_write s to r cw o =
    rw (set_transition_lem cw s.state to none (Obeys-ne o), Obeys-coded o)
      (let e = apply-Encodes r cw in
        let obeyed = on_write_control_word-Obeys s to r (apply (op_of r) cw) o e in
        (refl, obeyed.0, Shows-decode _ _ obeyed.1))
