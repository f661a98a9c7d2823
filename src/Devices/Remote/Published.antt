-- ===== src/Devices/Remote/Published.antt =====
-- What the remote's node publishes, for every configuration.
use ros2_canopen.Base.{ℕ, ◌<◌, ◌≡◌, refl, arith, false, Option, none, some, List, [], ◌∷◌, map}
use Prim.{Unit, tt}
use ros2_canopen.Base.Int.{ℤ, pos, negsuc, pattern_of}
use ros2_canopen.Core.Manager.{value_or}
use ros2_canopen.Devices.Remote.{
  Bridge, AxisSpec, Remote, is_empty, normalize, read_from, read_u8, read_axes,
}
use ros2_canopen.Devices.Remote.Order.{IsNormal, normalize-IsNormal}
use ros2_canopen.Devices.Remote.Config.{
  AxisEntry, Yaml, Settings, byte_or, or_default, default_axis, default_channels, default_axes,
  cons_axis, convert_axes, configure, make_remote,
}

-- A property of all members of a list.
abbrev pub All {ℓ} : {A : Type ℓ} → (A → Type 0) → List A → Type 0
All P [] = Unit
All P (x ∷ xs) = P x × All P xs

abbrev HasByte : AxisSpec → Type 0
HasByte axis = axis.center < 256

pattern_byte : (z : ℤ) → pattern_of 256 z < 256
pattern_byte (pos n) = omega arith
pattern_byte (negsuc n) = omega arith

byte_or_byte : (fallback : ℕ) (z : Option ℤ) → fallback < 256 → byte_or fallback z < 256
byte_or_byte fallback none h = h
byte_or_byte fallback (some z) h = pattern_byte z

cons_axis-All :
    (e : AxisEntry) (channel : Option ℤ) (axes : List AxisSpec)
    → All HasByte axes
    → All HasByte (cons_axis e channel axes)
cons_axis-All e none axes h = h
cons_axis-All e (some z) axes h = (byte_or_byte 128 e.center (omega arith), h)

convert_axes-All : (entries : List AxisEntry) → All HasByte (convert_axes entries)
unfolding convert_axes
convert_axes-All [] = tt
convert_axes-All (e ∷ entries) =
    cons_axis-All e e.channel (convert_axes entries) (convert_axes-All entries)

or_default-All :
    (axes fallback : List AxisSpec)
    → All HasByte axes
    → All HasByte fallback
    → All HasByte (or_default axes fallback)
or_default-All [] fallback h k = k
or_default-All (x ∷ xs) fallback h k = h

or_default_filled : (axes : List AxisSpec) → is_empty (or_default axes default_axes) ≡ false
or_default_filled [] = refl
or_default_filled (x ∷ xs) = refl

default_axis-All : (channels : List ℕ) → All HasByte (map default_axis channels)
default_axis-All [] = tt
default_axis-All (c ∷ channels) = (omega arith, default_axis-All channels)

configure-All : (y : Yaml) (s : Settings) → All HasByte (configure y s).axes
unfolding configure
configure-All y s =
    or_default-All (convert_axes (value_or [] y.axes)) default_axes
      (convert_axes-All (value_or [] y.axes)) (default_axis-All default_channels)

module _ {D : Type 0} (bridge : Bridge D) where
  read_u8_byte :
      (s : Remote D) (i j : ℕ)
      → ((k l : ℕ) (d : D) → bridge.get_value k l d < 256)
      → read_u8 bridge s i j < 256
  unfolding read_u8
  read_u8_byte s i j h = read (s.driver)
    where
      read : (driver : Option D) → read_from bridge driver i j < 256
      read none = omega arith
      read (some d) = ground (arith, h i j d)

  map-All :
      (s : Remote D) (axes : List AxisSpec)
      → ((k l : ℕ) (d : D) → bridge.get_value k l d < 256)
      → All HasByte axes
      → All IsNormal
          (map (λ axis. normalize (read_u8 bridge s s.registers.analog_index axis.sub) axis) axes)
  map-All s [] h k = tt
  map-All s (axis ∷ axes) h (c, k) = (
    normalize-IsNormal (read_u8 bridge s s.registers.analog_index axis.sub) axis
        (read_u8_byte s s.registers.analog_index axis.sub h) c,
    map-All s axes h k,
  )

  -- For every configuration, settings from before and driver, the remote that is made has at least one
  -- axis, and every value that it publishes for an axis is from -1 to 1 and no quotient by 0. The
  -- values of the bridge are bytes.
  pub read_axes-IsNormal :
      (y : Yaml) (s : Settings) (driver : Option D)
      → ((k l : ℕ) (d : D) → bridge.get_value k l d < 256)
      → (is_empty (configure y s).axes ≡ false)
        × All IsNormal (read_axes bridge (make_remote driver (configure y s)))
  unfolding read_axes configure
  read_axes-IsNormal y s driver h = (
    or_default_filled (convert_axes (value_or [] y.axes)),
    map-All (make_remote driver (configure y s)) (configure y s).axes h (configure-All y s),
  )
