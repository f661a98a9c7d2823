-- ===== src/Cia402/State.antt =====
-- The device state that a CiA 402 status word shows: canopen_402_driver/src/state.cpp and
-- canopen_402_driver/include/canopen_402_driver/state.hpp. The mutex and the condition variable
-- of `State402` stand behind `wait_for_new_state`: a waiter looks at the state between two ticks.
pub mod Sw
pub mod Decode
pub mod Wait
use ros2_canopen.Base.{
  ℕ, zero, suc, ◌^◌, ◌≡◌, ◌≢◌, ◌⊎◌, inl, inr, sym, ap, ◌∙◌, arith, Bool, true, false, Bool-cases,
  ==_iff, not, ◌||◌, ◌==◌, if◌then◌else◌, bit_and,
}
use mathlib.Core.Bool.{false≢true}
use ros2_canopen.Base.Bits.{◌or◌}

-- `Unknown` and `Start` are one enumerator value, 0.
pub data InternalState : Type 0 where
  start not_ready_to_switch_on switch_on_disabled ready_to_switch_on : InternalState
  switched_on operation_enable quick_stop_active fault_reaction_active fault : InternalState

pattern abbrev pub unknown : InternalState
unknown = start

abbrev pub state_code : InternalState → ℕ
state_code start = 0
state_code not_ready_to_switch_on = 1
state_code switch_on_disabled = 2
state_code ready_to_switch_on = 3
state_code switched_on = 4
state_code operation_enable = 5
state_code quick_stop_active = 6
state_code fault_reaction_active = 7
state_code fault = 8

-- `==` on the enumeration.
unfoldable pub same_state : InternalState → InternalState → Bool
same_state a b = state_code a == state_code b

state_code-injective : (a b : InternalState) → state_code a ≡ state_code b → a ≡ b
state_code-injective a b h = ground arith

pub same_state_cases :
    (a b : InternalState)
    → ((same_state a b ≡ true) × (a ≡ b)) ⊎ ((same_state a b ≡ false) × (a ≢ b))
unfolding same_state
same_state_cases a b = elim (Bool-cases (state_code a == state_code b)) [
  | inl e ↦ inl (e, state_code-injective a b ((==_iff (state_code a) (state_code b)).0 e))
  | inr e ↦
      inr (e, λ p. false≢true (sym e ∙ (==_iff (state_code a) (state_code b)).1 (ap state_code p)))
]

pub same_state_eq : (a b : InternalState) → a ≡ b → same_state a b ≡ true
same_state_eq a b p = ground (arith, same_state_cases a b)

pub same_state_ne : (a b : InternalState) → a ≢ b → same_state a b ≡ false
same_state_ne a b p = ground (arith, same_state_cases a b)

-- The masks of `read`, and the `switch` over the masked word.
unfoldable pub decode : ℕ → InternalState
decode sw =
    let r = 2 ^ Sw.ready_to_switch_on in
    let s = 2 ^ Sw.switched_on in
    let o = 2 ^ Sw.operation_enabled in
    let f = 2 ^ Sw.fault in
    let q = 2 ^ Sw.quick_stop in
    let d = 2 ^ Sw.switch_on_disabled in
    let state = bit_and sw (d or q or f or o or s or r) in
    if state == 0 || state == q
    then not_ready_to_switch_on
    else if state == d || state == (d or q)
    then switch_on_disabled
    else if state == (q or r)
    then ready_to_switch_on
    else if state == (q or s or r)
    then switched_on
    else if state == (q or o or s or r)
    then operation_enable
    else if state == (o or s or r)
    then quick_stop_active
    else if state == (f or o or s or r) || state == (q or f or o or s or r)
    then fault_reaction_active
    else if state == f || state == (q or f)
    then fault
    else unknown

-- `State402`: `read` stores the new state and returns the one that is stored.
pub record State402 : Type 0 where
  pub state : InternalState

unfoldable pub init : State402
init = record { state = unknown }

unfoldable pub read : State402 → ℕ → State402 × InternalState
read h sw =
    let new_state = decode sw in
    let h' = if same_state new_state h.state then h else record { state = new_state } in
    (h', h'.state)

-- What `waitForNewState` hands back: its result, the reference argument `state`, the ticks that
-- are left until `abstime`, and the world after the wait.
pub record Waited (W : Type 0) : Type 0 where
  pub changed : Bool
  pub state : InternalState
  pub left : ℕ
  pub world : W

-- The wait loop. `look` reads `state_` of the waiting object, `tick` is all that the other
-- threads do between two wake-ups, and `left` counts the wake-ups before `abstime`.
module _ {W : Type 0} (look : W → InternalState) (tick : W → W) where
  unfoldable pub wait_for_new_state : InternalState → ℕ → W → Waited W
  wait_for_new_state state zero w = record {
    changed = not (same_state state (look w));
    state = look w;
    left = 0;
    world = w;
  }
  wait_for_new_state state (suc left) w =
      let rest = wait_for_new_state state left (tick w) in
      if same_state (look w) state
      then rest
      else record { changed = true; state = look w; left = suc left; world = w }
