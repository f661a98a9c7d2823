-- ===== src/Devices/Remote.antt =====
-- The radio remote: `M880Remote`
-- (canopen_401_driver/include/canopen_401_driver/m880_remote.hpp) and the part of its node that uses
-- it (canopen_401_driver/include/canopen_401_driver/node_interfaces/node_canopen_401_driver_impl.hpp).
-- What it uses of the bridge is a parameter. The quotient of an axis is kept exact, where the code
-- rounds it to a float.
pub mod Laws
pub mod Order
pub mod Config
pub mod Published
use ros2_canopen.Base.{
  ℕ, suc, ◌+◌, ◌-◌, ◌*◌, ◌%◌, ◌==◌, ◌||◌, not, ltb, leb, length, Bool, true, false, if◌then◌else◌,
  Option, none, some, List, [], ◌∷◌, ◌++◌, map,
}
use ros2_canopen.Base.Bits.{bit}
use ros2_canopen.Base.Int.{ℤ, pos, negsuc, pos_part, neg_part, ltb_ℤ}

-- What the remote uses of `LelyDriverBridge`: `universal_get_value<uint8_t>` of a mapped object, and
-- `universal_set_value<uint8_t>`, false where it throws.
pub record Bridge (D : Type 0) : Type 0 where
  pub has_object : ℕ → ℕ → D → Bool
  pub get_value : ℕ → ℕ → D → ℕ
  pub set_value : ℕ → ℕ → ℕ → D → Bool × D

-- `Cia401RegisterMap`
pub record RegisterMap : Type 0 where
  pub digital_input_index : ℕ
  pub digital_output_index : ℕ
  pub analog_index : ℕ
  pub command_index : ℕ

pub record AxisSpec : Type 0 where
  pub sub : ℕ
  pub center : ℕ
  pub deadband : ℕ
  pub invert : Bool

pub record BitSpec : Type 0 where
  pub index : ℕ
  pub sub : ℕ
  pub bit_number : ℕ
  pub active_low : Bool

-- `M880Remote`, `driver` being none for the null pointer.
pub record Remote (D : Type 0) : Type 0 where
  pub driver : Option D
  pub registers : RegisterMap
  pub axes : List AxisSpec
  pub buttons : List BitSpec
  pub polled_digital_subs : List ℕ

-- A quotient of integers.
pub record Ratio : Type 0 where
  pub numerator : ℤ
  pub denominator : ℕ

abbrev pub zero_ratio : Ratio
zero_ratio = record { numerator = pos 0; denominator = 1 }

abbrev pub minus : ℕ → ℕ → ℤ
minus a b = if ltb a b then negsuc (b - a - 1) else pos (a - b)

abbrev pub negate : ℤ → ℤ
negate (pos n) = minus 0 n
negate (negsuc n) = pos (suc n)

-- `std::clamp(q, -1.0f, 1.0f)`
abbrev pub clamp : Ratio → Ratio
clamp q =
    if ltb_ℤ q.numerator (minus 0 q.denominator)
    then record { numerator = negsuc 0; denominator = 1 }
    else if ltb_ℤ (pos q.denominator) q.numerator
    then record { numerator = pos 1; denominator = 1 }
    else q

abbrev pub span_of : ℕ → ℤ → ℕ
span_of center delta = if ltb_ℤ (pos 0) delta then 255 - center else center

unfoldable pub normalize : ℕ → AxisSpec → Ratio
normalize raw axis =
    let delta = minus raw axis.center in
    let span = span_of axis.center delta in
    let q = clamp (record { numerator = delta; denominator = span }) in
    if leb (pos_part delta + neg_part delta) axis.deadband
    then zero_ratio
    else if span == 0
    then zero_ratio
    else if axis.invert
    then record q { numerator = negate q.numerator }
    else q

-- `for (bit = 0; bit < 8; ++bit) values.push_back((byte >> bit) & 0x01);`
abbrev pub bits_of : ℕ → List ℕ
bits_of byte =
    bit byte 0
    ∷ bit byte 1
    ∷ bit byte 2
    ∷ bit byte 3
    ∷ bit byte 4
    ∷ bit byte 5
    ∷ bit byte 6
    ∷ bit byte 7
    ∷ []

abbrev pub is_empty {ℓ} : {A : Type ℓ} → List A → Bool
is_empty [] = true
is_empty (x ∷ xs) = false

module _ {D : Type 0} (bridge : Bridge D) where
  abbrev pub read_from : Option D → ℕ → ℕ → ℕ
  read_from none index sub = 0
  read_from (some d) index sub =
      if index == 0
      then 0
      else if bridge.has_object index sub d
      then bridge.get_value index sub d
      else 0

  unfoldable pub read_u8 : Remote D → ℕ → ℕ → ℕ
  read_u8 s index sub = read_from s.driver index sub

  abbrev pub is_driver : Option D → Bool
  is_driver none = false
  is_driver (some d) = true

  unfoldable pub read_bit : Remote D → BitSpec → Bool
  unfolding read_u8 bit
  read_bit s spec =
      let raw = not (bit (read_u8 s spec.index spec.sub) (spec.bit_number % 8) == 0) in
      if not (is_driver s.driver) || (spec.index == 0)
      then false
      else if spec.active_low
      then not raw
      else raw

  unfoldable pub read_axes : Remote D → List Ratio
  unfolding read_u8 normalize
  read_axes s = map (λ axis. normalize (read_u8 s s.registers.analog_index axis.sub) axis) s.axes

  unfoldable pub expand : Remote D → List ℕ → List ℕ
  unfolding read_u8 bit
  expand s [] = []
  expand s (sub ∷ subs) = bits_of (read_u8 s s.registers.digital_input_index sub) ++ expand s subs

  unfoldable pub read_buttons : Remote D → List ℕ
  unfolding read_bit expand
  read_buttons s =
      if is_empty s.buttons
      then expand s s.polled_digital_subs
      else map (λ spec. if read_bit s spec then 1 else 0) s.buttons

  abbrev pub write_by : Option D → ℕ → ℕ → ℕ → Bool × Option D
  write_by none index sub value = (false, none)
  write_by (some d) index sub value =
      let (ok, d') = bridge.set_value index sub value d in
      if index == 0 then (false, some d) else (ok, some d')

  unfoldable pub write_output_byte : ℕ → ℕ → Remote D → Bool × Remote D
  write_output_byte sub value s =
      let (ok, driver) = write_by s.driver s.registers.digital_output_index sub value in
      (ok, record s { driver = driver })

  -- The loop of `on_digital_output` from the `i`th byte on; its result is not looked at.
  unfoldable pub write_bytes : ℕ → List ℕ → Remote D → Remote D
  unfolding write_output_byte
  write_bytes i [] s = s
  write_bytes i (byte ∷ bytes) s =
      write_bytes (suc i) bytes ((write_output_byte ((i + 1) % 256) byte s).1)

unfoldable pub button_count : {D : Type 0} → Remote D → ℕ
button_count s = if is_empty s.buttons then length s.polled_digital_subs * 8 else length s.buttons
