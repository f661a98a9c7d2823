-- ===== src/Devices/Remote/Config.antt =====
-- The configuration of the remote's node and what it publishes: `configure_common`,
-- `parse_bit_spec`, `add_to_master` and `publish`
-- (canopen_401_driver/include/canopen_401_driver/node_interfaces/node_canopen_401_driver_impl.hpp).
-- YAML is a parameter: an entry is `none` where it is missing or cannot be converted. Names of topics
-- are left out.
use ros2_canopen.Base.{ℕ, Bool, true, false, if◌then◌else◌, Option, none, some, List, [], ◌∷◌, map}
use ros2_canopen.Base.Int.{ℤ, pattern_of}
use ros2_canopen.Core.Manager.{value_or}
use ros2_canopen.Devices.Remote.{
  Bridge, RegisterMap, AxisSpec, BitSpec, Remote, Ratio, read_axes, read_buttons, read_bit,
}

pub record AxisEntry : Type 0 where
  pub channel : Option ℤ
  pub center : Option ℤ
  pub deadband : Option ℤ
  pub invert : Option Bool

pub record BitEntry : Type 0 where
  pub index : Option ℤ
  pub sub : Option ℤ
  pub bit_number : Option ℤ
  pub active_low : Option Bool

-- The sections; `polled_digital_subs`, `axes` and `buttons` are none where there is no sequence, and a
-- button or the stop is none where it is no map.
pub record Yaml : Type 0 where
  pub digital_input_index : Option ℤ
  pub digital_output_index : Option ℤ
  pub analog_index : Option ℤ
  pub command_index : Option ℤ
  pub polled_digital_subs : Option (List (Option ℤ))
  pub axes : Option (List AxisEntry)
  pub buttons : Option (List (Option BitEntry))
  pub estop : Option BitEntry

pub record Settings : Type 0 where
  pub registers : RegisterMap
  pub polled_digital_subs : List ℕ
  pub axes : List AxisSpec
  pub buttons : List BitSpec
  pub estop_spec : BitSpec
  pub estop_configured : Bool

-- `static_cast<uint8_t>` and `static_cast<uint16_t>` of an entry.
abbrev pub byte_or : ℕ → Option ℤ → ℕ
byte_or fallback none = fallback
byte_or fallback (some z) = pattern_of 256 z

abbrev pub word_or : ℕ → Option ℤ → ℕ
word_or fallback none = fallback
word_or fallback (some z) = pattern_of 65536 z

abbrev pub default_polled_digital_subs : List ℕ
default_polled_digital_subs =
    1 ∷ 2 ∷ 3 ∷ 4 ∷ 5 ∷ 6 ∷ 7 ∷ 8 ∷ 9 ∷ 10 ∷ 11 ∷ 12 ∷ 13 ∷ 14 ∷ 15 ∷ 17 ∷ []

abbrev pub default_axis : ℕ → AxisSpec
default_axis channel = record { sub = channel; center = 128; deadband = 0; invert = false }

-- `kDefaultAxisCount` channels
abbrev pub default_channels : List ℕ
default_channels = 1 ∷ 2 ∷ 3 ∷ 4 ∷ 5 ∷ 6 ∷ 7 ∷ 8 ∷ 9 ∷ 10 ∷ 11 ∷ 12 ∷ 13 ∷ 14 ∷ 15 ∷ 16 ∷ []

abbrev pub default_axes : List AxisSpec
default_axes = map default_axis default_channels

-- An entry that cannot be converted clears the list.
abbrev pub cons_sub : Option ℤ → Option (List ℕ) → Option (List ℕ)
cons_sub none rest = none
cons_sub (some z) none = none
cons_sub (some z) (some subs) = some (pattern_of 256 z ∷ subs)

abbrev pub convert_subs : List (Option ℤ) → Option (List ℕ)
convert_subs [] = some []
convert_subs (x ∷ xs) = cons_sub x (convert_subs xs)

abbrev pub subs_of : Option (List (Option ℤ)) → List ℕ
subs_of none = []
subs_of (some xs) = value_or [] (convert_subs xs)

abbrev pub or_default {ℓ} : {A : Type ℓ} → List A → List A → List A
or_default [] fallback = fallback
or_default (x ∷ xs) fallback = x ∷ xs

-- An axis without a channel is left out.
abbrev pub cons_axis : AxisEntry → Option ℤ → List AxisSpec → List AxisSpec
cons_axis e none axes = axes
cons_axis e (some channel) axes =
    record {
      sub = pattern_of 256 channel;
      center = byte_or 128 e.center;
      deadband = byte_or 0 e.deadband;
      invert = value_or false e.invert;
    }
    ∷ axes

unfoldable pub convert_axes : List AxisEntry → List AxisSpec
convert_axes [] = []
convert_axes (e ∷ entries) = cons_axis e e.channel (convert_axes entries)

abbrev pub parse_bit_spec : Option BitEntry → BitSpec → Bool × BitSpec
parse_bit_spec none out = (false, out)
parse_bit_spec (some e) out = (
  true,
  record {
    index = word_or out.index e.index;
    sub = byte_or out.sub e.sub;
    bit_number = byte_or out.bit_number e.bit_number;
    active_low = value_or out.active_low e.active_low;
  },
)

unfoldable pub convert_buttons : ℕ → List (Option BitEntry) → List BitSpec
convert_buttons index [] = []
convert_buttons index (e ∷ entries) =
    let out : BitSpec = record { index = index; sub = 1; bit_number = 0; active_low = false } in
    let (ok, spec) = parse_bit_spec e out in
    let rest = convert_buttons index entries in if ok then spec ∷ rest else rest

-- The lists are made anew; the registers keep what has no entry.
unfoldable pub configure : Yaml → Settings → Settings
unfolding convert_axes convert_buttons
configure y s =
    let registers : RegisterMap = record {
      digital_input_index = word_or s.registers.digital_input_index y.digital_input_index;
      digital_output_index = word_or s.registers.digital_output_index y.digital_output_index;
      analog_index = word_or s.registers.analog_index y.analog_index;
      command_index = word_or s.registers.command_index y.command_index;
    } in
    let stop : BitSpec = record {
      index = registers.command_index;
      sub = 19;
      bit_number = s.estop_spec.bit_number;
      active_low = true;
    } in
    let (configured, estop) = parse_bit_spec y.estop stop in
    record {
      registers = registers;
      polled_digital_subs = or_default (subs_of y.polled_digital_subs) default_polled_digital_subs;
      axes = or_default (convert_axes (value_or [] y.axes)) default_axes;
      buttons = convert_buttons registers.digital_input_index (value_or [] y.buttons);
      estop_spec = estop;
      estop_configured = configured;
    }

-- `add_to_master`
abbrev pub make_remote : {D : Type 0} → Option D → Settings → Remote D
make_remote driver s = record {
  driver = driver;
  registers = s.registers;
  axes = s.axes;
  buttons = s.buttons;
  polled_digital_subs = s.polled_digital_subs;
}

pub data Message : Type 0 where
  joy : List Ratio → List ℕ → Message
  estop : Bool → Message

module _ {D : Type 0} (bridge : Bridge D) where
  unfoldable pub publish : Settings → Option (Remote D) → List Message
  unfolding read_axes read_buttons read_bit
  publish s none = []
  publish s (some remote) =
      joy (read_axes bridge remote) (read_buttons bridge remote)
      ∷ (if s.estop_configured then estop (read_bit bridge remote s.estop_spec) ∷ [] else [])
