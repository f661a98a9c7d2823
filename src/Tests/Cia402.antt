-- ===== src/Tests/Cia402.antt =====
-- The state, the commands, the words and the modes of canopen_402_driver at concrete inputs.
use ros2_canopen.Base.{ℕ, suc, ◌≡◌, ◌↔◌, ◌⊎◌, refl, arith, true, false, none, some, if◌then◌else◌}
use ros2_canopen.Base.Int.{ℤ, pos, negsuc, ltb_ℤ}
use ros2_canopen.Cia402.Driver.{Driver, Doubles, fits, negative_overflow, positive_overflow}
use ros2_canopen.Cia402.State.{
  start, ready_to_switch_on, switched_on, operation_enable, fault, read,
}
use ros2_canopen.Cia402.State.Decode.{Shows, read-Shows}
use ros2_canopen.Cia402.Command.{set_transition, next_state_for_enabling}
use ros2_canopen.Cia402.Command.Table
use ros2_canopen.Cia402.Command.Table.{
  Request, Encodes, IsCommanded, is_further, request, hops, set_transition-request,
  set_transition_enabling,
}
use ros2_canopen.Cia402.Mode.Target.{Target}
use ros2_canopen.Cia402.Mode.Homing.{Homing, execute_homing}
use ros2_canopen.Cia402.Mode.Homing.Laws.{Ends, execute_homing-Ends}

-- The status word 0x0237 of an enabled drive, read in a handler that saw a fault.
read_enabled :
    (((read (record { state = fault }) 567).1 ≡ operation_enable) ↔ Shows operation_enable 567)
    × ((read (record { state = fault }) 567).0.state ≡ (read (record { state = fault }) 567).1)
read_enabled = read-Shows (record { state = fault }) 567 operation_enable (ground arith)

-- From 0x0006 with the halt bit, the command to switch on.
request_switch_on :
    let t = set_transition 262 ready_to_switch_on switched_on none in
    ((r : Request) × (request ready_to_switch_on switched_on ≡ some r)
      × (t.success ≡ true)
      × IsCommanded r 8 262 t.cw)
    ⊎ (((is_further ready_to_switch_on switched_on ≡ true)
          × (request ready_to_switch_on switched_on ≡ none)
          × (t.success ≡ true)
          × IsCommanded Table.quick_stop 8 262 t.cw)
        ⊎ ((is_further ready_to_switch_on switched_on ≡ false)
            × (request ready_to_switch_on switched_on ≡ none)
            × (t.success ≡ false)
            × (t.cw ≡ 262)))
request_switch_on =
    set_transition-request 262 ready_to_switch_on switched_on 8 (ground arith) (omega arith)
      (ground arith)

enable_from_fault :
    let t = set_transition 0 fault operation_enable (some start) in
    let hop = next_state_for_enabling fault in
    (t.success ≡ true)
    × (t.next ≡ some hop)
    × (hops fault ≡ suc (hops hop))
    × ((r : Request) × (request fault hop ≡ some r) × Encodes r t.cw)
enable_from_fault = set_transition_enabling 0 fault start (ground arith)

-- Doubles that are whole numbers.
abbrev whole : Doubles
whole = record {
  Double = ℤ;
  is_nan = λ v. false;
  numeric_cast = λ lo hi v.
      if ltb_ℤ v lo then negative_overflow else if ltb_ℤ hi v then positive_overflow else fits v;
}

abbrev velocity : Target
velocity = record { lowest = negsuc 32767; highest = pos 32767; target = pos 0; has_target = false }

-- A drive that homes at its second tick: the status goes from 0 over bit 10 to bits 10 and 12.
abbrev at_rest : Homing
at_rest = record { channel_offset = 0; execute = false; status = 1024 }

homing-Ends :
    Ends
      (λ h. h)
      (λ _ h. h)
      (λ h. record h { status = 5120 })
      (λ n. n)
      (λ w h. refl)
      (execute_homing
        (λ h. h)
        (λ _ h. h)
        (λ h. record h { status = 5120 })
        (λ n. n)
        (pos 35)
        10
        at_rest)
homing-Ends =
    execute_homing-Ends (λ h. h) (λ _ h. h) (λ h. record h { status = 5120 }) (λ n. n) (λ w h. refl)
      (pos 35) 10 at_rest refl

-- A device without objects.
abbrev no_objects : Driver ℕ
no_objects = record { get_value = λ d i s. pos 0; set_value = λ d i s v. d }
