-- ===== src/Nodes/Drive.antt =====
-- The CiA 402 driver node with its channels: `NodeCanopen402Driver`
-- (canopen_402_driver/include/canopen_402_driver/node_interfaces/node_canopen_402_driver_impl.hpp).
-- A channel's motor is a parameter with the operations that the node calls; so are the doubles. The
-- creation of the services and publishers, diagnostics and log lines are left out.
pub mod Laws
use ros2_canopen.Base.{
  ℕ, zero, suc, ◌==◌, ◌||◌, Bool, true, false, if◌then◌else◌, Option, none, some, List, [], ◌∷◌,
}
use ros2_canopen.Core.Manager.{value_or}

-- `double`, with the constants that the code uses.
pub record Doubles (F : Type 0) : Type 0 where
  pub plus : F → F → F
  pub times : F → F → F
  pub thousand : F
  pub thousandth : F
  pub nought : F

-- `Motor402`, on a motor that holds what it changes.
pub record MotorCalls (F M : Type 0) : Type 0 where
  pub handle_init : M → Bool × M
  pub handle_recover : M → Bool × M
  pub handle_halt : M → Bool × M
  pub handle_enable : M → Bool × M
  pub handle_disable : M → Bool × M
  pub get_mode : M → ℕ
  pub enter_mode_and_wait : ℕ → M → Bool × M
  pub set_target : F → M → Bool × M
  pub handle_read : M → M
  pub handle_write : M → M

-- `MotorBase::OperationMode`.
abbrev pub profiled_position : ℕ
profiled_position = 1

abbrev pub velocity : ℕ
velocity = 2

abbrev pub profiled_velocity : ℕ
profiled_velocity = 3

abbrev pub interpolated_position : ℕ
interpolated_position = 7

abbrev pub cyclic_synchronous_position : ℕ
cyclic_synchronous_position = 8

abbrev pub cyclic_synchronous_velocity : ℕ
cyclic_synchronous_velocity = 9

pub record Scales (F : Type 0) : Type 0 where
  pub pos_to_dev : F
  pub pos_from_dev : F
  pub vel_to_dev : F
  pub vel_from_dev : F
  pub eff_from_dev : F
  pub offset_pos_to_dev : F
  pub offset_pos_from_dev : F

-- The entries of the configuration, none where one is missing or cannot be converted.
pub record ScaleEntries (F : Type 0) : Type 0 where
  pub pos_to_dev : Option F
  pub pos_from_dev : Option F
  pub vel_to_dev : Option F
  pub vel_from_dev : Option F
  pub eff_from_dev : Option F
  pub offset_pos_to_dev : Option F
  pub offset_pos_from_dev : Option F

abbrev pub override : {F : Type 0} → Scales F → ScaleEntries F → Scales F
override s e = record {
  pos_to_dev = value_or s.pos_to_dev e.pos_to_dev;
  pos_from_dev = value_or s.pos_from_dev e.pos_from_dev;
  vel_to_dev = value_or s.vel_to_dev e.vel_to_dev;
  vel_from_dev = value_or s.vel_from_dev e.vel_from_dev;
  eff_from_dev = value_or s.eff_from_dev e.eff_from_dev;
  offset_pos_to_dev = value_or s.offset_pos_to_dev e.offset_pos_to_dev;
  offset_pos_from_dev = value_or s.offset_pos_from_dev e.offset_pos_from_dev;
}

pub record Channel (F M : Type 0) : Type 0 where
  pub motor : Option M
  pub scales : Scales F

pub record Node (F M : Type 0) : Type 0 where
  pub activated : Bool
  pub channels : List (Channel F M)

-- `channels_[i]`, none behind the end.
unfoldable pub get_elem? {ℓ} : {A : Type ℓ} → List A → ℕ → Option A
get_elem? [] i = none
get_elem? (x ∷ xs) zero = some x
get_elem? (x ∷ xs) (suc i) = get_elem? xs i

unfoldable pub set_elem {ℓ} : {A : Type ℓ} → ℕ → A → List A → List A
set_elem i y [] = []
set_elem zero y (x ∷ xs) = y ∷ xs
set_elem (suc i) y (x ∷ xs) = x ∷ set_elem i y xs

module _ {F : Type 0} (doubles : Doubles F) where
  abbrev pub default_scales : Scales F
  default_scales = record {
    pos_to_dev = doubles.thousand;
    pos_from_dev = doubles.thousandth;
    vel_to_dev = doubles.thousand;
    vel_from_dev = doubles.thousandth;
    eff_from_dev = doubles.thousandth;
    offset_pos_to_dev = doubles.nought;
    offset_pos_from_dev = doubles.nought;
  }

  -- The target in the device's units, by the mode.
  unfoldable pub scale_target : ℕ → Scales F → F → F
  scale_target mode s target =
      if (mode == profiled_position)
        || ((mode == cyclic_synchronous_position) || (mode == interpolated_position))
      then doubles.plus (doubles.times target s.pos_to_dev) s.offset_pos_to_dev
      else if (mode == velocity)
          || ((mode == profiled_velocity) || (mode == cyclic_synchronous_velocity))
      then doubles.times target s.vel_to_dev
      else target

module _ {F M : Type 0} where
  -- The channels, `count` of them, with their entries as far as there are any.
  unfoldable pub make_channels : ℕ → Scales F → List (ScaleEntries F) → List (Channel F M)
  make_channels zero scales entries = []
  make_channels (suc count) scales [] =
      record { motor = none; scales = scales } ∷ make_channels count scales []
  make_channels (suc count) scales (e ∷ entries) =
      record { motor = none; scales = override scales e } ∷ make_channels count scales entries

module _ {F M : Type 0} (doubles : Doubles F) where
  -- The channels of `configure_common`.
  unfoldable pub configure_common :
      Option ℕ → ScaleEntries F → List (ScaleEntries F) → Node F M → Node F M
  unfolding make_channels
  configure_common num_channels entry entries s = record s {
    channels =
        make_channels (value_or 1 num_channels) (override (default_scales doubles) entry) entries;
  }

-- The services.
pub data Service (F : Type 0) : Type 0 where
  init_motor recover_motor halt_motor enable_motor disable_motor : Service F
  operation_mode : ℕ → Service F
  target : F → Service F

module _ {F M : Type 0} (doubles : Doubles F) (calls : MotorCalls F M) where
  abbrev pub set_operation_mode : ℕ → M → Bool × M
  set_operation_mode mode m =
      if calls.get_mode m == mode then (false, m) else calls.enter_mode_and_wait mode m

  -- What a service does to the motor of its channel.
  unfoldable pub serve : Service F → Scales F → M → Bool × M
  serve init_motor scales m = calls.handle_init m
  serve recover_motor scales m = calls.handle_recover m
  serve halt_motor scales m = calls.handle_halt m
  serve enable_motor scales m = calls.handle_enable m
  serve disable_motor scales m = calls.handle_disable m
  serve (operation_mode mode) scales m = set_operation_mode mode m
  serve (target t) scales m = calls.set_target (scale_target doubles (calls.get_mode m) scales t) m

  abbrev pub on_motor : Service F → ℕ → Channel F M → Option M → Node F M → Bool × Node F M
  on_motor service i c none s = (false, s)
  on_motor service i c (some m) s =
      let (ok, m') = serve service c.scales m in
      (ok, record s { channels = set_elem i (record c { motor = some m' }) s.channels })

  abbrev pub on_channel : Service F → ℕ → Option (Channel F M) → Node F M → Bool × Node F M
  on_channel service i none s = (false, s)
  on_channel service i (some c) s = on_motor service i c c.motor s

  unfoldable pub handle : Service F → ℕ → Node F M → Bool × Node F M
  unfolding get_elem? set_elem
  handle service i s =
      if s.activated then on_channel service i (get_elem? s.channels i) s else (false, s)

  abbrev pub cycle : Channel F M → Option M → Channel F M
  cycle c none = c
  cycle c (some m) = record c { motor = some (calls.handle_write (calls.handle_read m)) }

  -- The motors' part of `poll_timer_callback`.
  unfoldable pub poll_motors : List (Channel F M) → List (Channel F M)
  poll_motors [] = []
  poll_motors (c ∷ cs) = cycle c c.motor ∷ poll_motors cs
