-- ===== src/Valve408.antt =====
-- The fluid-power valve of canopen_408_driver: `HydraulicAxis408`, of
-- canopen_408_driver/src/hydraulic_axis.cpp and
-- canopen_408_driver/include/canopen_408_driver/hydraulic_axis.hpp. The members are atomic or under
-- the mutex, and a call here is one step.
pub mod Register
pub mod Cw
pub mod Climb
pub mod Calls
use ros2_canopen.Base.{
  ℕ, suc, ◌&&◌, not, Bool, true, false, if◌then◌else◌, ltb, Option, some, none, is_some,
}
use ros2_canopen.Base.Int.{ℤ, pos, negsuc, ltb_ℤ, ◌==ℤ◌}

-- What a write leaves; it ended by an exception where `ok` is false.
pub record Written {ℓ} (D : Type ℓ) : Type ℓ where
  pub ok : Bool
  pub device : D

-- What the axis uses of `LelyDriverBridge`: index, subindex and value of a write. The result of
-- `async_sdo_write_typed(..).get()` is `none` where it ends by an exception, and so is a value that is
-- read. What a read leaves in the bridge's dictionary is not followed.
pub record Bridge {ℓ} (D : Type ℓ) : Type ℓ where
  pub universal_set_value : ℕ → ℕ → ℤ → D → Written D
  pub async_sdo_write : ℕ → ℕ → ℕ → D → Option Bool × D
  pub has_object : ℕ → ℕ → D → Bool
  pub universal_get_value : ℕ → ℕ → D → Option ℤ

-- `Phase`.
pub data Phase : Type 0 where
  idle fault_reset init disabled hold active : Phase

abbrev pub phase_dwell_ticks : ℕ
phase_dwell_ticks = 15

abbrev pub setpoint_full_scale : ℕ
setpoint_full_scale = 16384

abbrev pub setpoint_float : ℕ
setpoint_float = 32767

abbrev pub store_signature : ℕ
store_signature = 1702257011

-- The members; `driver` is `none` for the null pointer, and else the state of the bridge.
pub record Axis {ℓ} (D : Type ℓ) : Type ℓ where
  pub driver : Option D
  pub enabled : Bool
  pub current_cw : ℕ
  pub last_setpoint : ℤ
  pub phase : Phase
  pub phase_ticks : ℕ

-- The members as they are initialised.
abbrev pub make {ℓ} : {D : Type ℓ} → Option D → Axis D
make driver = record {
  driver = driver;
  enabled = false;
  current_cw = Cw.disabled;
  last_setpoint = pos 0;
  phase = idle;
  phase_ticks = 0;
}

unfoldable pub enable {ℓ} : {D : Type ℓ} → Axis D → Axis D
enable a = record a { last_setpoint = pos 0; enabled = false; phase_ticks = 0; phase = init }

unfoldable pub recover {ℓ} : {D : Type ℓ} → Axis D → Axis D
recover a = record a {
  last_setpoint = pos 0;
  enabled = false;
  phase_ticks = 0;
  phase = fault_reset;
}

unfoldable pub hold_axis {ℓ} : {D : Type ℓ} → Axis D → Axis D
hold_axis a = record a { phase = idle; enabled = false; current_cw = Cw.hold }

unfoldable pub disable {ℓ} : {D : Type ℓ} → Axis D → Axis D
disable a = record a { phase = idle; enabled = false; current_cw = Cw.disabled }

-- The control word of a phase; Idle has none of its own.
abbrev pub phase_cw : Phase → ℕ → ℕ
phase_cw idle cw = cw
phase_cw fault_reset cw = Cw.fault_reset
phase_cw init cw = Cw.init
phase_cw disabled cw = Cw.disabled
phase_cw hold cw = Cw.hold
phase_cw active cw = Cw.active

abbrev pub next_phase : Phase → Phase
next_phase idle = idle
next_phase fault_reset = init
next_phase init = disabled
next_phase disabled = hold
next_phase hold = active
next_phase active = idle

-- The last phase enables the axis.
abbrev pub enables : Phase → Bool
enables active = true
enables _ = false

-- The end of a phase's dwell. The next phase is stored behind the read of the status word for the log,
-- which is `read`, and not where that throws.
abbrev pub leave_phase {ℓ} : {D : Type ℓ} → Phase → Bool → Axis D → Axis D
leave_phase p read a = record a {
  enabled = if enables p then true else a.enabled;
  phase = if read then next_phase p else p;
}

-- The rest of `advance_phase_locked`, behind the test for Idle. The result tells that it returned.
abbrev pub dwell {ℓ} : {D : Type ℓ} → Phase → Bool → Axis D → Bool × Axis D
dwell p read a =
    let a1 = record a { current_cw = phase_cw p a.current_cw; phase_ticks = suc a.phase_ticks } in
    if ltb a1.phase_ticks phase_dwell_ticks
    then (true, a1)
    else (read, leave_phase p read (record a1 { phase_ticks = 0 }))

abbrev pub advance_from {ℓ} : {D : Type ℓ} → Phase → Bool → Axis D → Bool × Axis D
advance_from idle read a = (true, a)
advance_from p read a = dwell p read a

-- `std::clamp<int16_t>(raw, -SETPOINT_FULL_SCALE, SETPOINT_FULL_SCALE)`.
abbrev pub clamp : ℤ → ℤ → ℤ → ℤ
clamp v lo hi = if ltb_ℤ v lo then lo else if ltb_ℤ hi v then hi else v

abbrev pub limit_setpoint : ℤ → ℤ
limit_setpoint raw =
    if not (raw ==ℤ pos setpoint_float) && not (raw ==ℤ negsuc 32766)
    then clamp raw (negsuc 16383) (pos setpoint_full_scale)
    else raw

-- A `catch` that gives false.
abbrev pub caught : Option Bool → Bool
caught none = false
caught (some ok) = ok

module _ {ℓ} {D : Type ℓ} (bridge : Bridge D) where
  -- A write by the bridge: its success, and its state afterwards; the null pointer is a failure.
  unfoldable pub write_object : ℕ → ℕ → ℤ → Option D → Bool × Option D
  write_object index subindex value none = (false, none)
  write_object index subindex value (some d) =
      let written = bridge.universal_set_value index subindex value d in
      (written.ok, some written.device)

  unfoldable pub write_controlword : ℕ → Axis D → Bool × Axis D
  unfolding write_object
  write_controlword value a =
      let (ok, driver) = write_object Register.controlword 0 (pos value) a.driver in
      (ok, record a { driver = driver; current_cw = if ok then value else a.current_cw })

  unfoldable pub send_setpoint : ℤ → Axis D → Bool × Axis D
  unfolding write_object
  send_setpoint raw a =
      let (ok, driver) = write_object Register.setpoint 1 raw a.driver in
      (ok, record a { driver = driver })

  -- A read of an object that the device may lack; none where it throws.
  abbrev pub read_object : ℕ → ℕ → Option D → Option ℤ
  read_object index subindex none = some (pos 0)
  read_object index subindex (some d) =
      if bridge.has_object index subindex d
      then bridge.universal_get_value index subindex d
      else some (pos 0)

  unfoldable pub get_spool_position : Axis D → Option ℤ
  get_spool_position a = read_object Register.actual 1 a.driver

  unfoldable pub get_demand : Axis D → Option ℤ
  get_demand a = read_object Register.demand 0 a.driver

  unfoldable pub get_statusword : Axis D → Option ℤ
  get_statusword a = read_object Register.statusword 0 a.driver

  unfoldable pub get_pcb_temperature : Axis D → Option ℤ
  get_pcb_temperature a = read_object Register.pcb_temperature 0 a.driver

  unfoldable pub advance_phase_locked : Axis D → Bool × Axis D
  unfolding get_statusword
  advance_phase_locked a = advance_from a.phase (is_some (get_statusword a)) a

  -- The result tells that it returned: nothing is written where the read of the status word throws.
  unfoldable pub spin_once : Axis D → Bool × Axis D
  unfolding advance_phase_locked write_controlword send_setpoint
  spin_once a =
      let (ok, a1) = advance_phase_locked a in
      let (_, a2) = write_controlword a1.current_cw a1 in
      let (_, a3) = send_setpoint a2.last_setpoint a2 in (ok, if ok then a3 else a1)

  unfoldable pub set_setpoint : ℤ → Axis D → Bool × Axis D
  unfolding send_setpoint
  set_setpoint raw a =
      let limited = limit_setpoint raw in
      send_setpoint limited (record a { last_setpoint = limited })

  unfoldable pub set_float : Axis D → Bool × Axis D
  unfolding set_setpoint
  set_float a = set_setpoint (pos setpoint_float) a

  abbrev pub save_by : Option D → Bool × Option D
  save_by none = (false, none)
  save_by (some d) =
      let (result, d') = bridge.async_sdo_write Register.store_params 1 store_signature d in
      (caught result, some d')

  unfoldable pub save_to_eeprom : Axis D → Bool × Axis D
  save_to_eeprom a = let (ok, driver) = save_by a.driver in (ok, record a { driver = driver })
