-- ===== src/Core/Driver/Start.antt =====
-- When a driver's methods return, and what they have done then
-- (canopen_core/include/canopen_core/node_interfaces/node_canopen_driver.hpp,
-- canopen_core/src/driver_node.cpp).
use ros2_canopen.Base.{
  ℕ, zero, suc, ◌≡◌, ◌≢◌, ◌⊎◌, inl, inr, refl, arith, true, false, none, some, Option-cases,
}
use ros2_canopen.Core.Action.{return}
use ros2_canopen.Core.Driver.{
  Node, Hooks, make, set_master, cleanup, init, configure, activate, deactivate, shutdown,
  demand_set_master, attempt, start_driver, demand_failed,
}
use ros2_canopen.Core.Driver.Laws.{IsSound}

module _ {M W : Type 0} (hooks : Hooks M W) (s : Node M W) where
  -- `activate` returns exactly for a driver that has a master, is initialised, configured and not
  -- active, and whose virtual functions do not throw; it is active then, and otherwise as active as
  -- it was.
  pub activate_returns :
      (((activate hooks s).error ≡ none)
        × ((activate hooks s).after.activated ≡ true)
        × (s.master_set ≡ true)
        × (s.initialised ≡ true)
        × (s.configured ≡ true)
        × (s.activated ≡ false)
        × ((hooks.add_to_master s.world).0 ≡ true)
        × ((hooks.on_activate (hooks.add_to_master s.world).1).0 ≡ true))
      ⊎ (((activate hooks s).error ≢ none)
          × ((activate hooks s).after.activated ≡ s.activated)
          × ((s.master_set ≡ false)
              ⊎ ((s.initialised ≡ false)
                  ⊎ ((s.configured ≡ false)
                      ⊎ ((s.activated ≡ true)
                          ⊎ (((hooks.add_to_master s.world).0 ≡ false)
                              ⊎ ((hooks.on_activate (hooks.add_to_master s.world).1).0
                                  ≡ false)))))))
  unfolding activate
  activate_returns = ground arith

  -- `shutdown` returns for every sound driver whose hooks do not throw, active or not, and clears
  -- the four flags.
  pub shutdown_returns :
      IsSound s
      → ((w : W) → (hooks.remove_from_master w).0 ≡ true)
      → ((w : W) → (hooks.on_deactivate w).0 ≡ true)
      → ((w : W) → (hooks.on_shutdown w).0 ≡ true)
      → let r = shutdown hooks s in
        (r.error ≡ none)
        × (r.after.master_set ≡ false)
        × (r.after.initialised ≡ false)
        × (r.after.configured ≡ false)
        × (r.after.activated ≡ false)
  unfolding IsSound shutdown deactivate cleanup
  shutdown_returns h a b c =
      let w1 = (hooks.remove_from_master s.world).1 in
      let w2 = (hooks.on_deactivate w1).1 in ground (arith, a s.world, b w1, c s.world, c w2)

module _ {M W : Type 0} (hooks : Hooks M W) where
  -- One attempt leaves the other flags as they were.
  demand_frame :
      (s : Node M W)
      → let s' = (demand_set_master hooks s).after in
        (s'.initialised ≡ s.initialised)
        × (s'.configured ≡ s.configured)
        × (s'.activated ≡ s.activated)
  unfolding demand_set_master set_master
  demand_frame s = ground arith

  -- The attempts leave the other flags as they were.
  attempt_frame :
      (n : ℕ) (s : Node M W)
      → let s' = (attempt hooks n s).after in
        (s'.initialised ≡ s.initialised)
        × (s'.configured ≡ s.configured)
        × (s'.activated ≡ s.activated)
  unfolding attempt
  attempt_frame zero s = (refl, refl, refl)
  attempt_frame (suc n) s =
      let f = demand_frame s in
      elim (Option-cases (demand_set_master hooks s).error) [
        | inl e ↦ rw e f
        | inr (_, e) ↦
            let rest = attempt_frame n (demand_set_master hooks s).after in
            rw (e, rest.0, rest.1, rest.2) f
      ]

  demand_late :
      (s : Node M W)
      → (hooks.init_driver s.world).ready ≡ false
      → (demand_set_master hooks s).error ≢ none
  unfolding demand_set_master
  demand_late s late = ground (arith, late)

  -- However many attempts are made, and in whatever state the driver is: if the container never
  -- answers in time, they end by the exception of the loop.
  pub unanswered :
      (n : ℕ) (s : Node M W)
      → ((w : W) → (hooks.init_driver w).ready ≡ false)
      → (attempt hooks n s).error ≡ some demand_failed
  unfolding attempt
  unanswered zero s late = refl
  unanswered (suc n) s late = elim (Option-cases (demand_set_master hooks s).error) [
    | inl e ↦ absurd (demand_late s (late s.world) e)
    | inr (_, e) ↦ rw e (unanswered n (demand_set_master hooks s).after late)
  ]

  init_returns :
      (s : Node M W)
      → s.configured ≡ false
      → s.activated ≡ false
      → (hooks.create_interfaces s.world).0 ≡ true
      → (hooks.on_init (hooks.create_interfaces s.world).1).0 ≡ true
      → init hooks s
        ≡ return (record s {
          initialised = true;
          world = (hooks.on_init (hooks.create_interfaces s.world).1).1;
        })
  unfolding init
  init_returns s x y a b = rw (x, y, a, b) refl

  configure_returns :
      (s : Node M W)
      → s.initialised ≡ true
      → s.configured ≡ false
      → s.activated ≡ false
      → (hooks.read_parameters s.world).0 ≡ true
      → (hooks.on_configure (hooks.read_parameters s.world).1).0 ≡ true
      → configure hooks s
        ≡ return (record s {
          configured = true;
          world = (hooks.on_configure (hooks.read_parameters s.world).1).1;
        })
  unfolding configure
  configure_returns s x y z a b = rw (x, y, z, a, b) refl

  attempt_returns :
      (n : ℕ) (m : M) (s : Node M W)
      → s.configured ≡ true
      → s.activated ≡ false
      → (hooks.init_driver s.world).ready ≡ true
      → (hooks.init_driver s.world).sent ≡ some (some m)
      → attempt hooks (suc n) s
        ≡ return (record s {
          master = some m;
          master_set = true;
          world = (hooks.init_driver s.world).world;
        })
  unfolding attempt demand_set_master set_master
  attempt_returns n m s x y a b = rw (x, y, a, b) refl

  activate_active :
      (s : Node M W)
      → s.master_set ≡ true
      → s.initialised ≡ true
      → s.configured ≡ true
      → s.activated ≡ false
      → (hooks.add_to_master s.world).0 ≡ true
      → (hooks.on_activate (hooks.add_to_master s.world).1).0 ≡ true
      → ((activate hooks s).error ≡ none)
        × ((activate hooks s).after.activated ≡ true)
        × ((activate hooks s).after.master ≡ s.master)
  unfolding activate
  activate_active s x y z v a b = rw (x, y, z, v, a, b) (refl, refl, refl)

  -- A driver whose virtual functions do not throw, and which the container answers in time with the
  -- master, starts: `CanopenDriver::init` returns, and the driver is active with that master.
  pub start_driver_returns :
      (m : M) (w : W)
      → ((w : W) → (hooks.create_interfaces w).0 ≡ true)
      → ((w : W) → (hooks.on_init w).0 ≡ true)
      → ((w : W) → (hooks.read_parameters w).0 ≡ true)
      → ((w : W) → (hooks.on_configure w).0 ≡ true)
      → ((w : W) → (hooks.add_to_master w).0 ≡ true)
      → ((w : W) → (hooks.on_activate w).0 ≡ true)
      → ((w : W)
          → ((hooks.init_driver w).ready ≡ true) × ((hooks.init_driver w).sent ≡ some (some m)))
      → let r = start_driver hooks (make w) in
        (r.error ≡ none) × (r.after.activated ≡ true) × (r.after.master ≡ some m)
  unfolding start_driver
  start_driver_returns m w a b c d e f g =
      let w2 = (hooks.on_init (hooks.create_interfaces w).1).1 in
      let w4 = (hooks.on_configure (hooks.read_parameters w2).1).1 in
      let w5 = (hooks.init_driver w4).world in
      let s2 = record (make w) { initialised = true; world = w2 } in
      let s4 = record s2 { configured = true; world = w4 } in
      let s5 = record s4 { master = some m; master_set = true; world = w5 } in
      rw
        (
          init_returns (make w) refl refl (a _) (b _),
          configure_returns s2 refl refl refl (c _) (d _),
          attempt_returns 4 m s4 refl refl (g _).0 (g _).1,
        )
        (activate_active s5 refl refl refl refl (e _) (f _))
