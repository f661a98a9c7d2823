-- ===== src/Cia402/Driver.antt =====
-- What the drive code uses of `LelyDriverBridge`: the typed access to the object dictionary of the
-- device (canopen_base_driver/include/canopen_base_driver/lely_driver_bridge.hpp), which goes on to
-- the lely library. It is a parameter of the model. Values are the numbers that the typed calls
-- read and write; calls that raise are left out.
use ros2_canopen.Base.{ℕ, Bool}
use ros2_canopen.Base.Int.{ℤ}

pub record Driver (D : Type 0) : Type 0 where
  -- universal_get_value<T>(index, subindex)
  pub get_value : D → ℕ → ℕ → ℤ
  -- universal_set_value<T>(index, subindex, value)
  pub set_value : D → ℕ → ℕ → ℤ → D

-- A C++ double, of which the drive code uses `isnan` and the cast of boost.
pub data Cast : Type 0 where
  fits : ℤ → Cast
  negative_overflow positive_overflow bad_cast : Cast

-- The cast takes the least and the greatest value of the target type.
pub record Doubles : Type 1 where
  pub Double : Type 0
  pub is_nan : Double → Bool
  pub numeric_cast : ℤ → ℤ → Double → Cast
