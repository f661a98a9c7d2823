-- ===== src/Core/Container/Loop.antt =====
-- The loop over the devices that ask for a driver (canopen_core/src/device_container.cpp).
use ros2_canopen.Base.{
  ℕ, suc, ◌≡◌, inl, inr, refl, arith, ◌∙◌, ap, true, false, Option, none, some, [], ◌∷◌, find,
  find-assign, length, Bool-cases, if_true, if_false, if◌then◌else◌,
}
use ros2_canopen.Core.Manager.{Name}
use ros2_canopen.Core.Config.{Devices}
use ros2_canopen.Core.Container.{
  Loaded, loaded, not_loaded, thrown, Ros, Container, load_driver, load_each, is_driver, then_do,
  load_entries,
}
use ros2_canopen.Core.Container.Laws.{
  IsKept, IsAdded, load_driver-Outcome, count_drivers, IsSound, length-assign, added-IsGrown,
  IsDone, IsEntered, failed-IsEntered, outcome-IsEntered,
}

module _ {D N W : Type 0} (ros : Ros D N W) where
  abbrev enter :
      Name → Option ℕ → Option Name → Option Name → Container D N W → Loaded × Container D N W
  enter name id driver package_name s =
      load_entries id driver package_name
        (λ id driver package_name. load_driver ros name id driver package_name) s

  enter-IsEntered :
      (name : Name) (o : Option ℕ) (d p : Option Name) (s : Container D N W)
      → is_driver name ≡ true
      → IsSound ros s
      → IsEntered ros o s (enter name o d p s)
  enter-IsEntered name none d p s h sound = failed-IsEntered ros none s sound
  enter-IsEntered name (some id) none p s h sound = failed-IsEntered ros (some id) s sound
  enter-IsEntered name (some id) (some d) none s h sound = failed-IsEntered ros (some id) s sound
  enter-IsEntered name (some id) (some d) (some p) s h sound =
      outcome-IsEntered ros id s (load_driver ros name id d p s) sound
        (load_driver-Outcome ros name id d p s h)

  IsKept-trans : (s s1 s2 : Container D N W) → IsKept ros s s1 → IsKept ros s1 s2 → IsKept ros s s2
  IsKept-trans s s1 s2 (a, b, c) (d, e, f) = (d ∙ a, e ∙ b, f ∙ c)

  added-found :
      (id : ℕ) (node : D) (s s1 : Container D N W)
      → IsAdded ros id node s s1
      → (find id s1.registered ≡ some node) × (length s1.registered ≡ suc (length s.registered))
  added-found id node s s1 (r, f, _, _) = (
    ap (λ l. find id l) r ∙ ground (arith, find-assign id id node s.registered),
    ap (λ l. length l) r ∙ length-assign ros id node s.registered f,
  )

  -- A device that has a driver, before the others.
  step-IsDone :
      (name : Name) (n : N) (ds : Devices N) (s : Container D N W) (r : Loaded)
      (s1 : Container D N W)
      → ((s2 : Container D N W) → IsSound ros s2 → IsDone ros ds s2 (load_each ros ds s2))
      → is_driver name ≡ true
      → IsEntered ros (ros.entry n).node_id s (r, s1)
      → IsDone ros ((name, n) ∷ ds) s (then_do (r, s1) (load_each ros ds))
  step-IsDone name n ds s not_loaded s1 ih e (h, k, _) = (h, k, inl (λ x. ground (arith, x)))
  step-IsDone name n ds s (thrown x) s1 ih e (h, k, _) = (h, k, inl (λ x. ground (arith, x)))
  step-IsDone name n ds s loaded s1 ih e (h, k, inl ne) = absurd (ne refl)
  step-IsDone name n ds s loaded s1 ih e (h, k, inr (id, node, is, a)) =
      let s2 = (load_each ros ds s1).1 in
      let (h2, k2, rest) = ih s1 h in
      let (found, len) = added-found id node s s1 a in
      (
        h2,
        IsKept-trans s s1 s2 k k2,
        elim rest [
          | inl ne ↦ inl ne
          | inr (all, count, grown) ↦ inr (
            (inr (id, node, is, grown id node found), all),
            omega (
              arith,
              len,
              count,
              ap (λ b. if b then suc (count_drivers ds) else count_drivers ds) e,
            ),
            λ j v x. grown j v (added-IsGrown ros id node s s1 a j v x),
          )
        ],
      )

  other-IsDone :
      (name : Name) (n : N) (ds : Devices N) (s : Container D N W) (r : Loaded × Container D N W)
      → is_driver name ≡ false
      → IsDone ros ds s r
      → IsDone ros ((name, n) ∷ ds) s r
  other-IsDone name n ds s r e (h, k, inl ne) = (h, k, inl ne)
  other-IsDone name n ds s r e (h, k, inr (all, count, grown)) = (
    h,
    k,
    inr (
      (inl e, all),
      omega (arith, count, ap (λ b. if b then suc (count_drivers ds) else count_drivers ds) e),
      grown,
    ),
  )

  pub load_each-IsDone :
      (ds : Devices N) (s : Container D N W) → IsSound ros s → IsDone ros ds s (load_each ros ds s)
  unfolding load_each
  load_each-IsDone [] s h = (h, (refl, refl, refl), inr (tt, omega arith, λ id node e. e))
  load_each-IsDone ((name, n) ∷ ds) s h =
      let P = IsDone ros ((name, n) ∷ ds) s in
      let x = ros.entry n in
      let (r, s1) = enter name x.node_id x.driver x.package_name s in
      elim (Bool-cases (is_driver name)) [
        | inl e ↦ if_true P (is_driver name) _ _ e (
            step-IsDone name n ds s r s1 (load_each-IsDone ds) e
              (enter-IsEntered name x.node_id x.driver x.package_name s e h))
        | inr e ↦
            if_false P (is_driver name) _ _ e
              (other-IsDone name n ds s (load_each ros ds s) e (load_each-IsDone ds s h))
      ]
