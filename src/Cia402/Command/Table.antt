-- ===== src/Cia402/Command/Table.antt =====
-- The transition table of `Command402` against the commands of the CiA 402 standard
-- (canopen_402_driver/src/command.cpp).
use ros2_canopen.Base.{
  ℕ, suc, ◌<◌, ◌≡◌, ◌≢◌, ◌⊎◌, inl, inr, refl, arith, Bool, true, false, ◌&&◌, ◌||◌, ◌==◌, Option,
  Option-cases, Bool-cases, if◌then◌else◌, some, none, min, max, bit_and,
}
use ros2_canopen.Base.Bits.{
  bit, bit-bit_or, bit-bit_and, bit-le-one, complement16, holds_below, holds_below_lem,
}
use ros2_canopen.Cia402.State.{
  InternalState, start, not_ready_to_switch_on, switch_on_disabled, ready_to_switch_on, switched_on,
  operation_enable, quick_stop_active, fault_reaction_active, fault, same_state, same_state_ne,
  same_state_eq,
}
use ros2_canopen.Cia402.Command
use ros2_canopen.Cia402.Command.{
  Op, apply, lookup, transitions, Transition, set_transition, next_state_for_enabling,
  run_transition, hop_for, write_next,
}

-- The commands of the standard.
pub data Request : Type 0 where
  shutdown switch_on enable_operation disable_voltage quick_stop fault_reset automatic : Request

-- The bits of the control word by which the standard codes a command.
abbrev pub Encodes : Request → ℕ → Type 0
Encodes shutdown cw = (bit cw 7 ≡ 0) × (bit cw 2 ≡ 1) × (bit cw 1 ≡ 1) × (bit cw 0 ≡ 0)
Encodes switch_on cw =
    (bit cw 7 ≡ 0) × (bit cw 3 ≡ 0) × (bit cw 2 ≡ 1) × (bit cw 1 ≡ 1) × (bit cw 0 ≡ 1)
Encodes enable_operation cw =
    (bit cw 7 ≡ 0) × (bit cw 3 ≡ 1) × (bit cw 2 ≡ 1) × (bit cw 1 ≡ 1) × (bit cw 0 ≡ 1)
Encodes disable_voltage cw = (bit cw 7 ≡ 0) × (bit cw 1 ≡ 0)
Encodes quick_stop cw = (bit cw 7 ≡ 0) × (bit cw 2 ≡ 0) × (bit cw 1 ≡ 1)
Encodes fault_reset cw = bit cw 7 ≡ 1
Encodes automatic cw = Unit {0}

-- The standard's transitions: the command that leads from one state to another.
abbrev pub request : InternalState → InternalState → Option Request
request start not_ready_to_switch_on = some automatic
request not_ready_to_switch_on switch_on_disabled = some automatic
request switch_on_disabled ready_to_switch_on = some shutdown
request ready_to_switch_on switch_on_disabled = some disable_voltage
request ready_to_switch_on switched_on = some switch_on
request switched_on switch_on_disabled = some disable_voltage
request switched_on ready_to_switch_on = some shutdown
request switched_on operation_enable = some enable_operation
request operation_enable switch_on_disabled = some disable_voltage
request operation_enable ready_to_switch_on = some shutdown
request operation_enable switched_on = some switch_on
request operation_enable quick_stop_active = some quick_stop
request quick_stop_active switch_on_disabled = some disable_voltage
request quick_stop_active operation_enable = some enable_operation
request fault_reaction_active fault = some automatic
request fault switch_on_disabled = some fault_reset
request from to = none

-- The two further transitions of the code's table, which the standard does not have: there the quick
-- stop leads to Switch_On_Disabled, as the comments of the table say.
abbrev pub is_further : InternalState → InternalState → Bool
is_further ready_to_switch_on quick_stop_active = true
is_further switched_on quick_stop_active = true
is_further from to = false

-- The command that the code sends for a transition.
abbrev pub coded : InternalState → InternalState → Option Request
coded from to = if is_further from to then some quick_stop else request from to

unfoldable pub op_of : Request → Op
unfolding Command.shutdown Command.switch_on Command.enable_operation Command.disable_voltage
    Command.quickstop Command.fault_reset Command.automatic
op_of shutdown = Command.shutdown
op_of switch_on = Command.switch_on
op_of enable_operation = Command.enable_operation
op_of disable_voltage = Command.disable_voltage
op_of quick_stop = Command.quickstop
op_of fault_reset = Command.fault_reset
op_of automatic = Command.automatic

abbrev pub op_for : Option Request → Option Op
op_for none = none
op_for (some r) = some (op_of r)

apply-bit :
    (op : Op) (v i : ℕ)
    → bit (apply op v) i ≡ max (min (bit v i) (bit (complement16 op.to_reset) i)) (bit op.to_set i)
unfolding apply
apply-bit op v i = omega (
  arith,
  bit-bit_or i (bit_and v (complement16 op.to_reset)) op.to_set,
  bit-bit_and i v (complement16 op.to_reset),
)

module _ (op : Op) (v i : ℕ) where
  set_bit : bit op.to_set i ≡ 1 → bit (apply op v) i ≡ 1
  set_bit h = omega (arith, apply-bit op v i, bit-le-one i v)

  reset_bit : bit op.to_set i ≡ 0 → bit (complement16 op.to_reset) i ≡ 0 → bit (apply op v) i ≡ 0
  reset_bit h k = omega (arith, apply-bit op v i)

  keep_bit :
      bit op.to_set i ≡ 0 → bit (complement16 op.to_reset) i ≡ 1 → bit (apply op v) i ≡ bit v i
  keep_bit h k = omega (arith, apply-bit op v i, bit-le-one i v)

pub apply-Encodes : (r : Request) (v : ℕ) → Encodes r (apply (op_of r) v)
unfolding op_of bit
apply-Encodes shutdown v =
    (reset_bit _ v 7 refl refl, set_bit _ v 2 refl, set_bit _ v 1 refl, reset_bit _ v 0 refl refl)
apply-Encodes switch_on v = (
  reset_bit _ v 7 refl refl,
  reset_bit _ v 3 refl refl,
  set_bit _ v 2 refl,
  set_bit _ v 1 refl,
  set_bit _ v 0 refl,
)
apply-Encodes enable_operation v = (
  reset_bit _ v 7 refl refl,
  set_bit _ v 3 refl,
  set_bit _ v 2 refl,
  set_bit _ v 1 refl,
  set_bit _ v 0 refl,
)
apply-Encodes disable_voltage v = (reset_bit _ v 7 refl refl, reset_bit _ v 1 refl refl)
apply-Encodes quick_stop v =
    (reset_bit _ v 7 refl refl, reset_bit _ v 2 refl refl, set_bit _ v 1 refl)
apply-Encodes fault_reset v = set_bit _ v 7 refl
apply-Encodes automatic v = tt

-- The bits outside the command: 4 to 6, and 8 to 15.
abbrev pub is_command_bit : ℕ → Bool
is_command_bit i = (i == 0) || (i == 1) || (i == 2) || (i == 3) || (i == 7)

spares : Request → ℕ → Bool
spares r i =
    is_command_bit i
    || ((bit (op_of r).to_set i == 0) && (bit (complement16 (op_of r).to_reset) i == 1))

spares_table : (r : Request) → holds_below (spares r) 16 ≡ true
unfolding holds_below spares op_of bit
spares_table shutdown = refl
spares_table _ = refl

pub apply_frame :
    (r : Request) (v i : ℕ) → i < 16 → is_command_bit i ≢ true → bit (apply (op_of r) v) i ≡ bit v i
unfolding spares
apply_frame r v i h n = ground (
  arith,
  holds_below_lem (spares r) i 16 h (spares_table r),
  apply-bit (op_of r) v i,
  bit-le-one i v,
)

-- The table holds the standard's transitions, each with its command, and the two further ones.
pub lookup-transitions :
    (from to : InternalState) → lookup transitions from to ≡ op_for (coded from to)
unfolding lookup transitions op_of same_state
lookup-transitions start start = refl
lookup-transitions not_ready_to_switch_on start = refl
lookup-transitions switch_on_disabled start = refl
lookup-transitions ready_to_switch_on start = refl
lookup-transitions switched_on start = refl
lookup-transitions operation_enable start = refl
lookup-transitions quick_stop_active start = refl
lookup-transitions fault_reaction_active start = refl
lookup-transitions fault start = refl
lookup-transitions _ _ = refl

-- `setTransition` through the table of `coded`, for a target that is not the current state.
pub set_transition_lem :
    (cw : ℕ) (from to : InternalState) (next : Option InternalState)
    → from ≢ to
    → set_transition cw from to next
      ≡ run_transition
          (op_for (coded from (hop_for from to next)))
          cw
          (write_next next (hop_for from to next))
unfolding set_transition
set_transition_lem cw from to next n =
    rw (same_state_ne from to n, lookup-transitions from (hop_for from to next))

further_quick_stop : (from to : InternalState) → is_further from to ≡ true → request from to ≡ none
further_quick_stop start start h = refl
further_quick_stop ready_to_switch_on quick_stop_active h = refl
further_quick_stop switched_on quick_stop_active h = refl
further_quick_stop _ _ h = absurd (ground (arith, h))

-- What a transition with a command makes of the control word.
abbrev pub IsCommanded : Request → ℕ → ℕ → ℕ → Type 0
IsCommanded r i cw cw' = Encodes r cw' × (bit cw' i ≡ bit cw i)

-- For a target that is not the current state and no `next`, one of three things happens. For a
-- transition of the standard, `setTransition` succeeds and leaves the control word coding the
-- standard's command. From Ready_To_Switch_On or Switched_On to Quick_Stop_Active, where the standard
-- has no transition, it succeeds too, and the word codes the quick stop. For all else it fails, and
-- the word stays. Where it succeeds, each bit `i` outside the command (4 to 6 and 8 to 15) is as it
-- was.
pub set_transition-request :
    (cw : ℕ) (from to : InternalState) (i : ℕ)
    → from ≢ to
    → i < 16
    → is_command_bit i ≢ true
    → let t = set_transition cw from to none in
      ((r : Request) × (request from to ≡ some r) × (t.success ≡ true) × IsCommanded r i cw t.cw)
      ⊎ (((is_further from to ≡ true)
            × (request from to ≡ none)
            × (t.success ≡ true)
            × IsCommanded quick_stop i cw t.cw)
          ⊎ ((is_further from to ≡ false)
              × (request from to ≡ none)
              × (t.success ≡ false)
              × (t.cw ≡ cw)))
set_transition-request cw from to i n lt free =
    rw (set_transition_lem cw from to none n) (elim (Bool-cases (is_further from to)) [
      | inl f ↦
          rw (f, further_quick_stop from to f)
            (inr (
              inl (
                refl,
                refl,
                refl,
                (apply-Encodes quick_stop cw, apply_frame quick_stop cw i lt free),
              )))
      | inr f ↦ elim (Option-cases (request from to)) [
        | inl e ↦ rw (f, e) (inr (inr (refl, refl, refl, refl)))
        | inr (r, e) ↦
            rw (f, e) (inl (r, refl, refl, (apply-Encodes r cw, apply_frame r cw i lt free)))
      ]
    ])

-- The hops that are left on the way to Operation_Enable.
unfoldable pub hops : InternalState → ℕ
hops start = 5
hops not_ready_to_switch_on = 4
hops switch_on_disabled = 3
hops ready_to_switch_on = 2
hops switched_on = 1
hops operation_enable = 0
hops quick_stop_active = 1
hops fault_reaction_active = 5
hops fault = 4

-- The command of the next hop.
abbrev pub enabling_request : InternalState → Request
enabling_request start = automatic
enabling_request not_ready_to_switch_on = automatic
enabling_request switch_on_disabled = shutdown
enabling_request ready_to_switch_on = switch_on
enabling_request switched_on = enable_operation
enabling_request operation_enable = enable_operation
enabling_request quick_stop_active = enable_operation
enabling_request fault_reaction_active = automatic
enabling_request fault = fault_reset

pub request-enabling :
    (from : InternalState)
    → from ≢ operation_enable
    → request from (next_state_for_enabling from) ≡ some (enabling_request from)
unfolding next_state_for_enabling
request-enabling start n = refl
request-enabling operation_enable n = absurd (n refl)
request-enabling _ n = refl

further-enabling : (from : InternalState) → is_further from (next_state_for_enabling from) ≡ false
unfolding next_state_for_enabling
further-enabling start = refl
further-enabling _ = refl

pub hops-enabling :
    (from : InternalState)
    → from ≢ operation_enable
    → hops from ≡ suc (hops (next_state_for_enabling from))
unfolding next_state_for_enabling hops
hops-enabling start n = refl
hops-enabling operation_enable n = absurd (n refl)
hops-enabling _ n = refl

pub set_transition_towards :
    (cw : ℕ) (from n : InternalState)
    → from ≢ operation_enable
    → set_transition cw from operation_enable (some n) ≡ record {
      success = true;
      cw = apply (op_of (enabling_request from)) cw;
      next = some (next_state_for_enabling from);
    }
set_transition_towards cw from n ne = rw (
  set_transition_lem cw from operation_enable (some n) ne,
  same_state_eq operation_enable operation_enable refl,
  further-enabling from,
  request-enabling from ne,
)

-- From every state but Operation_Enable, a request for Operation_Enable with a `next` pointer
-- succeeds: `next` becomes a state one hop nearer to Operation_Enable, the hop is a transition of
-- the standard, and the control word codes that transition's command.
pub set_transition_enabling :
    (cw : ℕ) (from n : InternalState)
    → from ≢ operation_enable
    → let t = set_transition cw from operation_enable (some n) in
      let hop = next_state_for_enabling from in
      (t.success ≡ true)
      × (t.next ≡ some hop)
      × (hops from ≡ suc (hops hop))
      × ((r : Request) × (request from hop ≡ some r) × Encodes r t.cw)
set_transition_enabling cw from n ne = rw (set_transition_towards cw from n ne) (
  refl,
  refl,
  hops-enabling from ne,
  (enabling_request from, request-enabling from ne, apply-Encodes (enabling_request from) cw),
)
