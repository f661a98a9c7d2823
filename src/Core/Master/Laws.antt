-- ===== src/Core/Master/Laws.antt =====
-- What keeps the master's flags in order, and what its clients get
-- (canopen_core/include/canopen_core/node_interfaces/node_canopen_master.hpp).
use ros2_canopen.Base.{
  ◌≡◌, ◌≢◌, ◌⊎◌, inl, inr, refl, arith, true, false, none, some, List, [], ◌∷◌, Option-cases,
}
use ros2_canopen.Core.Master.{
  Master, Libraries, Method, make, init, configure, activate, open_master, deactivate, cleanup,
  shutdown, get_master, get_executor, no_executor,
}

-- An active master is configured, and its clients get a master; a configured one is initialised;
-- `master_set` stands for an executor, in a configured master.
unfoldable pub IsSound : {M W : Type 0} → Master M W → Type 0
IsSound s =
    ((s.activated ≡ false) ⊎ ((s.configured ≡ true) × (s.master_set ≡ true) × (s.master ≢ none)))
    × ((s.configured ≡ false) ⊎ (s.initialised ≡ true))
    × ((s.master_set ≡ false) ⊎ ((s.configured ≡ true) × (s.executor ≡ true)))

pub data Call : Type 0 where
  call_init call_configure call_activate call_deactivate call_cleanup call_shutdown : Call

module _ {M W : Type 0} (libraries : Libraries M W) where
  abbrev pub call : Call → Method M W
  call call_init = init libraries
  call call_configure = configure libraries
  call call_activate = activate libraries
  call call_deactivate = deactivate libraries
  call call_cleanup = cleanup
  call call_shutdown = shutdown libraries

  abbrev pub calls : List Call → Master M W → Master M W
  calls [] s = s
  calls (c ∷ cs) s = calls cs (call c s).after

  -- Opening leaves the flags, and where it returns there are an executor and a master.
  open_master_lem :
      (s : Master M W)
      → let r = open_master libraries s in
        (r.after.activated ≡ s.activated)
        × (r.after.configured ≡ s.configured)
        × (r.after.initialised ≡ s.initialised)
        × (r.after.master_set ≡ s.master_set)
        × ((r.after.executor ≡ true) ⊎ (r.after.executor ≡ s.executor))
        × ((r.error ≢ none) ⊎ ((r.after.executor ≡ true) × (r.after.master ≢ none)))
  unfolding open_master
  open_master_lem s = ground arith

  activate-IsSound : (s : Master M W) → IsSound s → IsSound (activate libraries s).after
  unfolding IsSound activate
  activate-IsSound s h = ground (arith, h, open_master_lem s)

  deactivate-IsSound : (s : Master M W) → IsSound s → IsSound (deactivate libraries s).after
  unfolding IsSound deactivate
  deactivate-IsSound s h = ground arith

  cleanup-IsSound : (s : Master M W) → IsSound s → IsSound (cleanup s).after
  unfolding IsSound cleanup
  cleanup-IsSound s h = ground arith

  shutdown-IsSound : (s : Master M W) → IsSound s → IsSound (shutdown libraries s).after
  unfolding IsSound shutdown
  shutdown-IsSound s h =
      let s' = (deactivate libraries s).after in
      let h' = deactivate-IsSound s h in
      ground (arith, h, h', cleanup-IsSound s h, cleanup-IsSound s' h')

  init-IsSound : (s : Master M W) → IsSound s → IsSound (init libraries s).after
  unfolding IsSound init
  init-IsSound s h = ground arith

  configure-IsSound : (s : Master M W) → IsSound s → IsSound (configure libraries s).after
  unfolding IsSound configure
  configure-IsSound s h = ground arith

  call-IsSound : (c : Call) (s : Master M W) → IsSound s → IsSound (call c s).after
  call-IsSound call_init s h = init-IsSound s h
  call-IsSound call_configure s h = configure-IsSound s h
  call-IsSound call_activate s h = activate-IsSound s h
  call-IsSound call_deactivate s h = deactivate-IsSound s h
  call-IsSound call_cleanup s h = cleanup-IsSound s h
  call-IsSound call_shutdown s h = shutdown-IsSound s h

  calls-stay : (cs : List Call) (s : Master M W) → IsSound s → IsSound (calls cs s)
  calls-stay [] s h = h
  calls-stay (c ∷ cs) s h = calls-stay cs (call c s).after (call-IsSound c s h)

  -- Whatever calls follow the construction, and whichever of them end by an exception: while the
  -- master is active, `get_master` and `get_executor` give pointers that are not null, and
  -- `get_executor` never gives a null pointer.
  pub calls-get_master :
      (cs : List Call) (w : W)
      → let s = calls cs (make w) in
        ((s.activated ≡ false) ⊎ ((m : M) × (get_master s ≡ inr (some m))))
        × ((get_executor s ≡ inl no_executor) ⊎ (get_executor s ≡ inr true))
  unfolding IsSound get_master get_executor
  calls-get_master cs w =
      let h = calls-stay cs (make w) (inl refl, inl refl, inl refl) in
      let s = calls cs (make w) in
      (
        elim h.0 [
          | inl e ↦ inl e
          | inr (_, set, ne) ↦ elim (Option-cases s.master) [
            | inl n ↦ absurd (ne n)
            | inr (m, e) ↦ inr (m, rw (set, e) refl)
          ]
        ],
        ground (arith, h),
      )

  -- After `deactivate` has returned for a sound master, `get_master` does not throw until the
  -- cleanup, but gives a null pointer.
  pub get_master-deactivate :
      (s : Master M W)
      → IsSound s
      → (deactivate libraries s).error ≡ none
      → get_master (deactivate libraries s).after ≡ inr none
  unfolding IsSound get_master deactivate
  get_master-deactivate s h e = ground (arith, h, e)
