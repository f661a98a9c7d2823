-- ===== src/Tests/Valve.antt =====
-- The valve of canopen_408_driver at concrete inputs.
use ros2_canopen.Base.{ℕ, suc, ◌≡◌, iterate, refl, true, false, some, [], ◌∷◌, List}
use ros2_canopen.Base.Int.{pos, negsuc}
use ros2_canopen.Valve408.{Bridge, Axis, idle, make, enable, recover}
use ros2_canopen.Valve408.Climb.{cycle, climb_ends}
use ros2_canopen.Valve408.Calls.{Call, call_enable, call_spin, call_setpoint, call_hold}

-- A bridge that counts the writes that it takes.
abbrev counting : Bridge ℕ
counting = record {
  universal_set_value = λ i s v d. record { ok = true; device = suc d };
  async_sdo_write = λ i s v d. (some true, suc d);
  has_object = λ i s d. false;
  universal_get_value = λ i s d. some (pos 0);
}

abbrev fresh : Axis ℕ
fresh = make (some 0)

valve_enabled :
    let b = iterate (cycle counting) 60 (enable fresh) in
    let c = iterate (cycle counting) 75 (recover fresh) in
    (b.enabled ≡ true) × (b.phase ≡ idle) × (c.enabled ≡ true) × (c.phase ≡ idle)
valve_enabled = climb_ends counting (λ d. refl) fresh

abbrev some_calls : List Call
some_calls = call_enable ∷ call_setpoint (pos 30000) ∷ call_spin ∷ call_hold ∷ []

abbrev idle_calls : List Call
idle_calls = call_spin ∷ call_setpoint (negsuc 99) ∷ call_spin ∷ []
