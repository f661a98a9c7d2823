-- ===== src/Control/Robot/Modes.antt =====
-- The two switches over the mode that choose the target, in
-- canopen_ros2_control/include/canopen_ros2_control/cia402_data.hpp and
-- canopen_ros2_control/src/cia402_system.cpp.
use ros2_canopen.Base.{ℕ, ◌==◌, ◌≡◌, ◌⊎◌, inl, inr, arith, none, some, Bool-cases}
use ros2_canopen.Control.Drives
use ros2_canopen.Control.Drives.{MotorData}
use ros2_canopen.Control.Robot
use ros2_canopen.Control.Robot.{Joint, cyclic_synchronous_torque}

module _ {F : Type 0} where
  -- With the same targets, the two hardware interfaces for drives send the same one in every mode but
  -- the cyclic synchronous torque mode, where `RobotSystem` sends the torque and `Cia402System`
  -- nothing.
  pub target_of-agree :
      (mode : ℕ) (d : MotorData F) (s : Joint F)
      → d.position_value ≡ s.target_position
      → d.velocity_value ≡ s.target_velocity
      → d.torque_value ≡ s.target_torque
      → ((mode ≡ cyclic_synchronous_torque)
          × (Drives.target_of mode d ≡ none)
          × (Robot.target_of mode s ≡ some s.target_torque))
        ⊎ (Drives.target_of mode d ≡ Robot.target_of mode s)
  unfolding Drives.target_of Robot.target_of
  target_of-agree mode d s p v t = elim (Bool-cases (mode == cyclic_synchronous_torque)) [
    | inl e ↦ inl (ground (arith, e), ground (arith, e), ground (arith, e))
    | inr e ↦ inr (ground (arith, e, p, v, t))
  ]
