-- ===== src/Tests/Devices.antt =====
-- The devices' drivers at concrete inputs: the radio remote of canopen_401_driver and the node of
-- canopen_408_driver.
use ros2_canopen.Base.{
  ℕ, suc, ◌+◌, ◌%◌, ◌*◌, ◌≤◌, ◌≡◌, ◌⊎◌, refl, arith, length, true, false, none, some, List, [], ◌∷◌,
}
use ros2_canopen.Base.Bits.{bit}
use ros2_canopen.Base.Int.{ℤ, pos, negsuc}
use ros2_canopen.Nodes.Drive.{get_elem?}
use ros2_canopen.Devices.Remote
use ros2_canopen.Devices.Remote.{
  Remote, AxisSpec, BitSpec, minus, normalize, read_buttons, button_count, read_u8, read_bit,
  write_bytes, is_empty, read_axes,
}
use ros2_canopen.Devices.Remote.Config.{Yaml, Settings, configure, make_remote, publish}
use ros2_canopen.Devices.Remote.Published.{All, read_axes-IsNormal}
use ros2_canopen.Devices.Inclinometer
use ros2_canopen.Devices.Inclinometer.{Inclinometer, write_preset_or_offset}
use ros2_canopen.Devices.Remote.Order.{IsNormal, ◌≤q◌, normalize_order}
use ros2_canopen.Devices.Remote.Laws.{read_buttons_expanded}
use ros2_canopen.Devices.Valve.{Floats, Node, set_position}
use ros2_canopen.Devices.Valve.Laws.{IsSetpoint, set_position-IsSetpoint}
use ros2_canopen.Valve408
use ros2_canopen.Valve408.{Axis}

abbrev stick : AxisSpec
stick = record { sub = 1; center = 100; deadband = 5; invert = false }

stick_grows :
    IsNormal (normalize 20 stick)
    × (normalize 20 stick ≤q normalize 180 stick)
    × ((255 ≤ 105) ⊎ ((normalize 255 stick).numerator ≡ pos (normalize 255 stick).denominator))
    × ((100 ≤ 5) ⊎ ((normalize 0 stick).numerator ≡ minus 0 (normalize 0 stick).denominator))
stick_grows = normalize_order 20 180 stick (omega arith) (omega arith) (omega arith) refl

-- Each byte is its subindex, cut to a byte; the writes are kept in a list.
abbrev memory : Remote.Bridge (List (ℕ × ℕ))
memory = record {
  has_object = λ i s d. true;
  get_value = λ i s d. s % 256;
  set_value = λ i s v d. (true, (s, v) ∷ d);
}

abbrev remote : Remote (List (ℕ × ℕ))
remote = record {
  driver = some [];
  registers = record {
    digital_input_index = 0x6000;
    digital_output_index = 0x6200;
    analog_index = 0x2021;
    command_index = 0x2020;
  };
  axes = stick ∷ [];
  buttons = [];
  polled_digital_subs = 1 ∷ 5 ∷ [];
}

tenth_button :
    (length (read_buttons memory remote) ≡ button_count remote)
    × (get_elem? (read_buttons memory remote) (1 * 8 + 2)
        ≡ some (bit (read_u8 memory remote 0x6000 5) 2))
unfolding get_elem?
tenth_button = read_buttons_expanded memory remote 1 2 5 refl (omega arith) refl

-- Only the channel 3, with its rest position at 300, which is cut to a byte.
abbrev one_axis : Yaml
one_axis = record {
  digital_input_index = none;
  digital_output_index = none;
  analog_index = none;
  command_index = none;
  polled_digital_subs = some (some (pos 4) ∷ none ∷ []);
  axes = some (
      record { channel = some (pos 3); center = some (pos 300); deadband = none; invert = none }
      ∷ record { channel = none; center = none; deadband = none; invert = none }
      ∷ []);
  buttons = none;
  estop = none;
}

abbrev fresh : Settings
fresh = record {
  registers = remote.registers;
  polled_digital_subs = [];
  axes = [];
  buttons = [];
  estop_spec = record { index = 0x6000; sub = 1; bit_number = 0; active_low = false };
  estop_configured = false;
}

axes_in_range :
    (is_empty (configure one_axis fresh).axes ≡ false)
    × All IsNormal (read_axes memory (make_remote (some []) (configure one_axis fresh)))
axes_in_range = read_axes-IsNormal memory one_axis fresh (some []) (λ k l d. omega arith)

-- A subindex that cannot be converted clears the list, and the defaults are polled; the stop is not
-- published unless it is configured.
defaults_polled :
    let s = configure one_axis fresh in
    (length s.polled_digital_subs ≡ 16)
    × (length s.axes ≡ 1)
    × (length (publish memory s (some (make_remote (some []) s))) ≡ 1)
unfolding configure publish
defaults_polled = (refl, refl, refl)

two_bytes_written :
    (write_bytes memory 0 (17 ∷ 34 ∷ []) remote).driver ≡ some ((2, 34) ∷ (1, 17) ∷ [])
unfolding write_bytes
two_bytes_written = refl

-- An active-low bit reads as set where the object is missing, and as clear where there is no driver.
abbrev stop_bit : BitSpec
stop_bit = record { index = 0x2020; sub = 19; bit_number = 0; active_low = true }

stop_without_object :
    read_bit (record memory { has_object = λ i s d. false }) remote stop_bit ≡ true
unfolding read_bit read_u8
stop_without_object = refl

stop_without_driver : read_bit memory (record remote { driver = none }) stop_bit ≡ false
unfolding read_bit read_u8
stop_without_driver = refl

abbrev counting : Valve408.Bridge ℕ
counting = record {
  universal_set_value = λ i s v d. record { ok = true; device = suc d };
  async_sdo_write = λ i s v d. (some true, suc d);
  has_object = λ i s d. false;
  universal_get_value = λ i s d. some (pos 0);
}

abbrev raw_values : Floats ℤ
raw_values = record { to_raw = λ x offset scale. x; from_raw = λ scale offset n. n; nought = pos 0 }

abbrev axis : Axis ℕ
axis = Valve408.make (some 0)

abbrev valve : Node ℤ ℕ
valve = record {
  axis = some axis;
  scale_to_dev = pos 1;
  scale_from_dev = pos 1;
  offset = pos 0;
  float_setpoint_raw = pos 32767;
}

-- 201 percent
reversed :
    (a' : Axis ℕ) × ((set_position counting raw_values (pos 32932) valve).1.axis ≡ some a')
    × IsSetpoint (pos 32932) a'.last_setpoint
reversed =
    set_position-IsSetpoint counting raw_values (pos 32932) valve axis refl (omega arith)
      (omega arith)

-- The last value that was written, in 16 bits.
abbrev last_written : Inclinometer.Bridge ℤ
last_written = record {
  has_object = λ i d. true;
  get_int16 = λ i d. d;
  get_int32 = λ i d. d;
  write_int16 = λ i v d. (some true, v);
  write_int32 = λ i v d. (none, v);
}

abbrev level : Inclinometer ℤ ℤ
level = record {
  driver = some (pos 1);
  registers = record {
    slope_long_index = 0x6010;
    slope_long_bits = 32;
    slope_lateral_index = 0x6110;
    slope_lateral_bits = 32;
    slope_long_preset_index = 0x6030;
    slope_lateral_preset_index = 0x6130;
    slope_long_offset_index = 0x6040;
    slope_lateral_offset_index = 0x6140;
    preset_bits = 32;
    offset_bits = 16;
  };
  deg_per_lsb = pos 1;
}

-- 16 bits do not hold 40000.
offset_wraps :
    (write_preset_or_offset last_written 0x6040 (pos 40000) 16 level).1.driver ≡ some (negsuc 25535)
unfolding write_preset_or_offset
offset_wraps = refl
