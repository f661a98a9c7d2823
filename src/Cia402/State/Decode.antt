-- ===== src/Cia402/State/Decode.antt =====
-- The status words of each state in the CiA 402 standard, against `State402::read`
-- (canopen_402_driver/src/state.cpp).
use ros2_canopen.Base.{ℕ, ◌+◌, ◌*◌, ◌/◌, ◌≡◌, ◌≢◌, ◌↔◌, arith, bit_and, refl, sym, ◌∙◌}
use ros2_canopen.Base.Bits.{bit, bit_and_low, bit_and-zero, bit-le-one}
use ros2_canopen.Cia402.State.{
  InternalState, start, not_ready_to_switch_on, switch_on_disabled, ready_to_switch_on, switched_on,
  operation_enable, quick_stop_active, fault_reaction_active, fault, decode, State402, read,
  same_state_cases,
}

-- Bits 6, 3, 2, 1, 0 of a status word.
abbrev Low : ℕ → ℕ → ℕ → ℕ → ℕ → ℕ → Type 0
Low sw d f o s r =
    (bit sw 6 ≡ d) × (bit sw 3 ≡ f) × (bit sw 2 ≡ o) × (bit sw 1 ≡ s) × (bit sw 0 ≡ r)

-- The bit patterns of the standard's table of states.
abbrev pub Shows : InternalState → ℕ → Type 0
Shows start sw = ⊥
Shows not_ready_to_switch_on sw = Low sw 0 0 0 0 0
Shows switch_on_disabled sw = Low sw 1 0 0 0 0
Shows ready_to_switch_on sw = (bit sw 5 ≡ 1) × Low sw 0 0 0 0 1
Shows switched_on sw = (bit sw 5 ≡ 1) × Low sw 0 0 0 1 1
Shows operation_enable sw = (bit sw 5 ≡ 1) × Low sw 0 0 1 1 1
Shows quick_stop_active sw = (bit sw 5 ≡ 0) × Low sw 0 0 1 1 1
Shows fault_reaction_active sw = Low sw 0 1 1 1 1
Shows fault sw = Low sw 0 1 0 0 0

masked :
    (sw : ℕ)
    → bit_and sw 111
      ≡ bit sw 0 + 2 * bit sw 1 + 4 * bit sw 2 + 8 * bit sw 3 + 32 * bit sw 5 + 64 * bit sw 6
unfolding bit
masked sw = omega (
  arith,
  bit_and_low sw 111,
  bit_and_low (sw / 2) 55,
  bit_and_low (sw / 2 / 2) 27,
  bit_and_low (sw / 2 / 2 / 2) 13,
  bit_and_low (sw / 2 / 2 / 2 / 2) 6,
  bit_and_low (sw / 2 / 2 / 2 / 2 / 2) 3,
  bit_and_low (sw / 2 / 2 / 2 / 2 / 2 / 2) 1,
  bit_and-zero (sw / 2 / 2 / 2 / 2 / 2 / 2 / 2),
)

pub decode-Shows : (sw : ℕ) (s : InternalState) → s ≢ start → decode sw ≡ s → Shows s sw
unfolding decode
decode-Shows sw start n h = absurd (n refl)
decode-Shows sw _ n h = ground (
  arith,
  masked sw,
  bit-le-one 0 sw,
  bit-le-one 1 sw,
  bit-le-one 2 sw,
  bit-le-one 3 sw,
  bit-le-one 5 sw,
  bit-le-one 6 sw,
)

pub Shows-decode : (sw : ℕ) (s : InternalState) → Shows s sw → decode sw ≡ s
unfolding decode
Shows-decode sw start h = absurd h
Shows-decode sw _ h = ground (arith, masked sw, bit-le-one 5 sw)

read-decode : (h : State402) (sw : ℕ) → (read h sw).1 ≡ decode sw
unfolding read
read-decode h sw = ground (arith, same_state_cases (decode sw) h.state)

-- Whatever state the handler holds and whatever the status word, `read` returns a state other
-- than `Unknown` exactly when the word shows that state's bit pattern of the CiA 402 table, and
-- the state that it returns is the one that it stores.
pub read-Shows :
    (h : State402) (sw : ℕ) (s : InternalState)
    → s ≢ start
    → (((read h sw).1 ≡ s) ↔ Shows s sw) × ((read h sw).0.state ≡ (read h sw).1)
unfolding read
read-Shows h sw s n = (
  (
    λ e. decode-Shows sw s n (sym (read-decode h sw) ∙ e),
    λ p. read-decode h sw ∙ Shows-decode sw s p,
  ),
  refl,
)
