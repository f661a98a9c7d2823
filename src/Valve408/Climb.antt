-- ===== src/Valve408/Climb.antt =====
-- The climb of the valve's state machine to its active state (canopen_408_driver/src/hydraulic_axis.cpp).
use ros2_canopen.Base.{
  ℕ, zero, suc, ◌+◌, ◌<◌, ◌≤◌, ◌≡◌, ◌≢◌, ◌⊎◌, inl, inr, refl, arith, true, false, leb, ltb, ap, ◌∙◌,
  if◌then◌else◌, iterate, is_some, Option, none, some,
}
use ros2_canopen.Valve408.Register
use ros2_canopen.Valve408.{
  Bridge, Axis, Phase, idle, fault_reset, init, disabled, hold, active, phase_cw, enable, recover,
  advance_from, advance_phase_locked, get_statusword, read_object, write_object, write_controlword,
  send_setpoint, spin_once,
}

-- The cycles from the start of a fault reset to the start of a phase.
unfoldable pub elapsed : Phase → ℕ
elapsed fault_reset = 0
elapsed init = 15
elapsed disabled = 30
elapsed hold = 45
elapsed active = 60
elapsed idle = 75

-- The cycles since the start of a fault reset.
abbrev pub position {ℓ} : {D : Type ℓ} → Axis D → ℕ
position a = elapsed a.phase + a.phase_ticks

-- A cycle within a climb, from `a` to `a'`.
abbrev pub Advances {ℓ} : {D : Type ℓ} → Axis D → Axis D → Type 0
Advances a a' =
    (position a' ≡ suc (position a))
    × (a'.phase_ticks < 15)
    × (a'.current_cw ≡ phase_cw a.phase a.current_cw)
    × (a'.enabled ≡ (if leb 75 (position a') then true else a.enabled))

dwell-Advances {ℓ} :
    {D : Type ℓ} (p : Phase) (a : Axis D)
    → p ≢ idle
    → a.phase_ticks < 15
    → Advances (record a { phase = p }) (advance_from p true (record a { phase = p })).1
unfolding elapsed
dwell-Advances idle a n lt = absurd (n refl)
dwell-Advances _ a n lt = ground arith

idle_cases : (p : Phase) → ((p ≡ idle) × (elapsed p ≡ 75)) ⊎ ((p ≢ idle) × (elapsed p ≤ 60))
unfolding elapsed
idle_cases idle = inl (refl, refl)
idle_cases _ = inr (ground arith, omega arith)

-- The phase of a position.
abbrev phase_at : ℕ → Phase
phase_at k =
    if ltb k 15
    then fault_reset
    else if ltb k 30
    then init
    else if ltb k 45
    then disabled
    else if ltb k 60
    then hold
    else if ltb k 75
    then active
    else idle

phase_of : (p : Phase) (t : ℕ) → t < 15 → p ≡ phase_at (elapsed p + t)
unfolding elapsed
phase_of fault_reset t lt = ground arith
phase_of _ t lt = ground arith

-- The control words of a climb, by the cycles since a fault reset would have started.
abbrev pub climb_cw : ℕ → ℕ
climb_cw k =
    if ltb k 15
    then 3
    else if ltb k 30
    then 8
    else if ltb k 45
    then 9
    else if ltb k 60
    then 11
    else 15

phase_cw-phase_at : (k cw : ℕ) → k < 75 → phase_cw (phase_at k) cw ≡ climb_cw k
phase_cw-phase_at k cw lt = ground arith

busy {ℓ} : {D : Type ℓ} (a : Axis D) → position a < 75 → a.phase ≢ idle
unfolding elapsed
busy a lt = ground (arith, idle_cases a.phase)

module _ {ℓ} {D : Type ℓ} (bridge : Bridge D) where
  -- A cycle, also one that ends by an exception.
  abbrev pub cycle : Axis D → Axis D
  cycle a = (spin_once bridge a).1

  -- A cycle changes the members as `advance_phase_locked` does, whatever the bridge answers.
  pub spin_fields :
      (a : Axis D)
      → ((cycle a).phase ≡ (advance_phase_locked bridge a).1.phase)
        × ((cycle a).phase_ticks ≡ (advance_phase_locked bridge a).1.phase_ticks)
        × ((cycle a).enabled ≡ (advance_phase_locked bridge a).1.enabled)
        × ((cycle a).current_cw ≡ (advance_phase_locked bridge a).1.current_cw)
        × ((cycle a).last_setpoint ≡ (advance_phase_locked bridge a).1.last_setpoint)
  unfolding spin_once write_controlword send_setpoint write_object
  spin_fields a = ground arith

  -- A read of the status word that does not throw, in any state of the bridge.
  abbrev pub IsReadable : Type ℓ
  IsReadable = (d : D) → is_some (bridge.universal_get_value Register.statusword 0 d) ≡ true

  get_statusword_readable : IsReadable → (a : Axis D) → is_some (get_statusword bridge a) ≡ true
  unfolding get_statusword
  get_statusword_readable q a = of_driver a.driver
    where
      of_driver :
          (driver : Option D) → is_some (read_object bridge Register.statusword 0 driver) ≡ true
      of_driver none = refl
      of_driver (some d) = ground (arith, q d)

  spin_once-Advances :
      IsReadable → (a : Axis D) → a.phase ≢ idle → a.phase_ticks < 15 → Advances a (cycle a)
  unfolding advance_phase_locked
  spin_once-Advances q a n lt =
      let f = spin_fields a in
      rw (f.0, f.1, f.2, f.3, get_statusword_readable q a) (dwell-Advances a.phase a n lt)

  -- `b` is `n` cycles further in the climb that `a` is in.
  Climbed : ℕ → Axis D → Axis D → Type 0
  Climbed n a b =
      (position b ≡ position a + n)
      × (b.phase_ticks < 15)
      × (b.enabled ≡ (if leb 75 (position a + n) then true else a.enabled))

  climbed :
      (q : IsReadable) (n : ℕ) (a : Axis D)
      → a.phase ≢ idle
      → a.phase_ticks < 15
      → position a + n ≤ 75
      → Climbed n a (iterate cycle n a)
  unfolding Climbed
  climbed q zero a ne lt le = ground (arith, idle_cases a.phase)
  climbed q (suc zero) a ne lt le = ground (arith, spin_once-Advances q a ne lt)
  climbed q (suc (suc n)) a ne lt le =
      let adv = spin_once-Advances q a ne lt in
      elim (idle_cases (cycle a).phase) [
        | inl (e, at) ↦ absurd (omega (arith, adv.0))
        | inr (ne', at) ↦
            let more = climbed q (suc n) (cycle a) ne' adv.1 (omega (arith, adv.0)) in
            ground (arith, more, adv.0, adv.3)
      ]

  -- A climb in progress, the driver not yet enabled.
  module _ (q : IsReadable) (a : Axis D) (ne : a.phase ≢ idle) (lt : a.phase_ticks < 15)
      (off : a.enabled ≡ false) where
    climb_cycle :
        (n : ℕ)
        → position a + n < 75
        → let b = iterate cycle n a in
          (b.enabled ≡ false) × ((cycle b).current_cw ≡ climb_cw (position a + n))
    unfolding Climbed
    climb_cycle n lt' =
        let b = iterate cycle n a in
        let c = climbed q n a ne lt (omega arith) in
        let streamed = spin_once-Advances q b (busy b (omega (arith, c.0))) c.1 in
        let word = phase_cw-phase_at (position a + n) b.current_cw lt' in
        (
          ground (arith, c.2),
          streamed.2
              ∙ (ap (λ p. phase_cw p b.current_cw)
                    (phase_of b.phase b.phase_ticks c.1 ∙ ap phase_at c.0)
                  ∙ word),
        )

    climb_end :
        (n : ℕ)
        → position a + n ≡ 75
        → let b = iterate cycle n a in (b.enabled ≡ true) × (b.phase ≡ idle)
    unfolding Climbed
    climb_end n e =
        let b = iterate cycle n a in
        let c = climbed q n a ne lt (omega arith) in
        (ground (arith, c.2), phase_of b.phase b.phase_ticks c.1 ∙ ap phase_at (c.0 ∙ e))

  -- After `enable`, the axis is not enabled for 60 cycles, in which it streams the words of Init,
  -- Disabled, Hold and Active, 15 cycles each. The read of the status word never throws.
  pub enable_climb :
      (q : IsReadable) (a : Axis D) (n : ℕ)
      → n < 60
      → let b = iterate cycle n (enable a) in
        (b.enabled ≡ false)
        × ((cycle b).current_cw
            ≡ (if ltb n 15 then 8 else if ltb n 30 then 9 else if ltb n 45 then 11 else 15))
  unfolding enable elapsed
  enable_climb q a n lt =
      let c = climb_cycle q (enable a) (ground arith) (omega arith) refl n (omega arith) in
      ground (arith, c)

  -- `recover` begins with 15 cycles of the fault reset. The read of the status word never throws.
  pub recover_climb :
      (q : IsReadable) (a : Axis D) (n : ℕ)
      → n < 75
      → let b = iterate cycle n (recover a) in
        (b.enabled ≡ false) × ((cycle b).current_cw ≡ climb_cw n)
  unfolding recover elapsed
  recover_climb q a n lt =
      let c = climb_cycle q (recover a) (ground arith) (omega arith) refl n (omega arith) in
      ground (arith, c)

  -- 60 cycles after `enable`, and 75 after `recover`, the axis is enabled and the climb has ended,
  -- whatever becomes of the writes. The read of the status word never throws.
  pub climb_ends :
      (q : IsReadable) (a : Axis D)
      → let b = iterate cycle 60 (enable a) in
        let c = iterate cycle 75 (recover a) in
        (b.enabled ≡ true) × (b.phase ≡ idle) × (c.enabled ≡ true) × (c.phase ≡ idle)
  unfolding enable recover elapsed
  climb_ends q a =
      let b = climb_end q (enable a) (ground arith) (omega arith) refl 60 refl in
      let c = climb_end q (recover a) (ground arith) (omega arith) refl 75 refl in
      (b.0, b.1, c.0, c.1)
