-- ===== src/Core/Driver/Laws.antt =====
-- What keeps a driver's flags in order
-- (canopen_core/include/canopen_core/node_interfaces/node_canopen_driver.hpp).
use ros2_canopen.Base.{
  ℕ, zero, suc, ◌≡◌, ◌⊎◌, inl, inr, refl, arith, true, false, Option, List, [], ◌∷◌, Option-cases,
}
use ros2_canopen.Core.Driver.{
  Node, Hooks, make, Method, set_master, cleanup, init, configure, activate, deactivate, shutdown,
  demand_set_master, attempt,
}

-- An active driver is configured and its master has been set, a configured one is initialised, and
-- only a configured one has `master_set`. The pointer may be null: the container may have passed null.
unfoldable pub IsSound : {M W : Type 0} → Node M W → Type 0
IsSound s =
    ((s.activated ≡ false) ⊎ ((s.configured ≡ true) × (s.master_set ≡ true)))
    × ((s.configured ≡ false) ⊎ (s.initialised ≡ true))
    × ((s.master_set ≡ false) ⊎ (s.configured ≡ true))

module _ {M W : Type 0} where
  set_master-IsSound : (m : Option M) (s : Node M W) → IsSound s → IsSound (set_master m s).after
  unfolding IsSound set_master
  set_master-IsSound m s h = ground arith

  cleanup-IsSound : (s : Node M W) → IsSound s → IsSound (cleanup s).after
  unfolding IsSound cleanup
  cleanup-IsSound s h = ground arith

module _ {M W : Type 0} (hooks : Hooks M W) where
  init-IsSound : (s : Node M W) → IsSound s → IsSound (init hooks s).after
  unfolding IsSound init
  init-IsSound s h = ground arith

  configure-IsSound : (s : Node M W) → IsSound s → IsSound (configure hooks s).after
  unfolding IsSound configure
  configure-IsSound s h = ground arith

  activate-IsSound : (s : Node M W) → IsSound s → IsSound (activate hooks s).after
  unfolding IsSound activate
  activate-IsSound s h = ground arith

  deactivate-IsSound : (s : Node M W) → IsSound s → IsSound (deactivate hooks s).after
  unfolding IsSound deactivate
  deactivate-IsSound s h = ground arith

  shutdown-IsSound : (s : Node M W) → IsSound s → IsSound (shutdown hooks s).after
  unfolding IsSound shutdown deactivate cleanup
  shutdown-IsSound s h = ground arith

  demand_set_master-IsSound : (s : Node M W) → IsSound s → IsSound (demand_set_master hooks s).after
  unfolding IsSound demand_set_master set_master
  demand_set_master-IsSound s h = ground arith

  attempt-IsSound : (n : ℕ) (s : Node M W) → IsSound s → IsSound (attempt hooks n s).after
  unfolding attempt
  attempt-IsSound zero s h = h
  attempt-IsSound (suc n) s h =
      let h' = demand_set_master-IsSound s h in
      elim (Option-cases (demand_set_master hooks s).error) [
        | inl e ↦ rw e h'
        | inr (_, e) ↦ rw e (attempt-IsSound n (demand_set_master hooks s).after h')
      ]

-- The calls that a driver's node and the container make.
pub data Call (M : Type 0) : Type 0 where
  call_init call_configure call_activate call_deactivate call_cleanup call_shutdown : Call M
  call_demand : ℕ → Call M
  call_set_master : Option M → Call M

module _ {M W : Type 0} (hooks : Hooks M W) where
  abbrev pub call : Call M → Method M W
  call call_init = init hooks
  call call_configure = configure hooks
  call call_activate = activate hooks
  call call_deactivate = deactivate hooks
  call call_cleanup = cleanup
  call call_shutdown = shutdown hooks
  call (call_demand n) = attempt hooks n
  call (call_set_master m) = set_master m

  abbrev pub calls : List (Call M) → Node M W → Node M W
  calls [] s = s
  calls (c ∷ cs) s = calls cs (call c s).after

  call-IsSound : (c : Call M) (s : Node M W) → IsSound s → IsSound (call c s).after
  call-IsSound call_init s h = init-IsSound hooks s h
  call-IsSound call_configure s h = configure-IsSound hooks s h
  call-IsSound call_activate s h = activate-IsSound hooks s h
  call-IsSound call_deactivate s h = deactivate-IsSound hooks s h
  call-IsSound call_cleanup s h = cleanup-IsSound s h
  call-IsSound call_shutdown s h = shutdown-IsSound hooks s h
  call-IsSound (call_demand n) s h = attempt-IsSound hooks n s h
  call-IsSound (call_set_master m) s h = set_master-IsSound m s h

  calls-keep : (cs : List (Call M)) (s : Node M W) → IsSound s → IsSound (calls cs s)
  calls-keep [] s h = h
  calls-keep (c ∷ cs) s h = calls-keep cs (call c s).after (call-IsSound c s h)

  -- Whatever calls follow the construction, and whichever of them end by an exception of a guard, a
  -- virtual function or a library: an active driver is configured and its master has been set, perhaps
  -- to null; a configured one is initialised; and `master_set` is set only in a configured driver.
  pub calls-IsSound : (cs : List (Call M)) (w : W) → IsSound (calls cs (make w))
  unfolding IsSound
  calls-IsSound cs w = calls-keep cs (make w) (inl refl, inl refl, inl refl)
