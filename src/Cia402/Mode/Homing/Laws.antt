-- ===== src/Cia402/Mode/Homing/Laws.antt =====
-- What `DefaultHomingMode::executeHoming` promises (canopen_402_driver/src/default_homing_mode.cpp).
use ros2_canopen.Base.{ℕ, ◌≡◌, ◌⊎◌, inl, inr, refl, arith, Bool, true, false, Bool-cases}
use ros2_canopen.Base.Bits.{bit, has_any, has_any-pow, bit-le-one}
use ros2_canopen.Base.Int.{ℤ, pos, ◌==ℤ◌}
use ros2_canopen.Cia402.Mode.Homing.{
  Homing, mask_error, wait_until, masked_status_not_equal, error, finish, await, execute_homing,
}

module _ {W : Type 0} (look : W → Homing) (update : W → Homing → W) (tick : W → W)
    (now_plus : ℕ → ℕ) (look-update : (w : W) (h : Homing) → look (update w h) ≡ h) where
  -- The request to home is withdrawn, and success means that the drive has stopped (bit 10), has
  -- attained home (bit 12) and shows no error (bit 13).
  pub record Ends (r : Bool × W) : Type 0 where
    pub withdrawn : (look r.1).execute ≡ false
    pub outcome :
        (r.0 ≡ false)
        ⊎ ((r.0 ≡ true)
            × (bit (look r.1).status 10 ≡ 1)
            × (bit (look r.1).status 12 ≡ 1)
            × (bit (look r.1).status 13 ≡ 0))

  error-Ends : (w : W) → Ends (error look update tick now_plus w)
  unfolding error
  error-Ends w = record { withdrawn = rw (look-update w _); outcome = inl refl }

  finish-Ends :
      (w : W)
      → has_any (look w).status mask_error ≡ false
      → Ends (finish look update tick now_plus w)
  unfolding finish
  finish-Ends w clear = ground (
    arith,
    look-update w (record (look w) { execute = false }),
    has_any-pow 10 (look w).status,
    has_any-pow 12 (look w).status,
    has_any-pow 13 (look w).status,
    bit-le-one 13 (look w).status,
  )

  await-Ends :
      (mask not_equal deadline : ℕ) (w : W) (next : ℕ → W → Bool × W)
      → ((left : ℕ) (w' : W) → has_any (look w').status mask_error ≡ false → Ends (next left w'))
      → Ends (await look update tick now_plus mask not_equal deadline w next)
  unfolding await
  await-Ends mask not_equal deadline w next rest =
      let r =
        wait_until look update tick now_plus (masked_status_not_equal mask not_equal) deadline w in
      elim (Bool-cases r.holds) [
        | inl e ↦ rw e (elim (Bool-cases (has_any (look r.world).status mask_error)) [
          | inl bad ↦ rw bad (error-Ends r.world)
          | inr clear ↦ rw clear (rest r.left r.world clear)
        ])
        | inr e ↦ rw e (error-Ends r.world)
      ]

  -- A homing method other than 0 ends, whatever the drive shows and however long it takes, with
  -- the request to home withdrawn; `executeHoming` returns true only if the drive then shows
  -- target reached and homing attained, and no homing error.
  pub execute_homing-Ends :
      (hmode : ℤ) (timeout : ℕ) (w : W)
      → (hmode ==ℤ pos 0) ≡ false
      → Ends (execute_homing look update tick now_plus hmode timeout w)
  unfolding execute_homing
  execute_homing-Ends hmode timeout w n = rw n (
      await-Ends _ _ _ w _ λ prepare w1 _. await-Ends _ _ _ _ _ λ _ w2 _.
        await-Ends _ _ _ w2 _ λ left w3 _. await-Ends _ _ _ w3 _ λ _ w4 clear. finish-Ends w4 clear)
