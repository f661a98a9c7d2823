-- ===== src/Core/Config/Laws.antt =====
-- What the configuration of the bus holds after it was read
-- (canopen_core/src/configuration_manager.cpp).
use ros2_canopen.Base.{
  ◌≡◌, ◌⊎◌, inl, inr, refl, arith, sym, subst, ap, ◌∙◌, ◌++◌, is_some, Bool, true, false, Option,
  none, some, [], ◌∷◌, or_else, Bool-cases, if◌then◌else◌, if_true, if_false,
}
use mathlib.Core.Bool.{true≢false}
use ros2_canopen.Core.Manager.{Name, value_or, same_name, less_name}
use ros2_canopen.Core.Config.{
  Found, not_a_map, missing, malformed, path, Yaml, Devices, options_name, insert_device, device_at,
  section_path, then_path, default_path, with_path, enter_one, enter_devices, enter_root,
  init_config,
}
use ros2_canopen.Core.Config.Names.{
  same_name_path, less_name_trans, less_name_same, less_name_total,
}

same-both : (n a j : Name) → same_name n a ≡ true → same_name n j ≡ true → same_name a j ≡ true
same-both n a j h k = subst (λ x. same_name x j ≡ true) (same_name_path n a h) k

same_trans : (n a j : Name) → same_name n a ≡ true → same_name a j ≡ true → same_name n j ≡ true
same_trans n a j h k = subst (λ x. same_name n x ≡ true) (same_name_path a j k) h

same-less : (n a j : Name) → same_name n a ≡ true → less_name a j ≡ true → less_name n j ≡ true
same-less n a j h k = subst (λ x. less_name x j ≡ true) (sym (same_name_path n a h)) k

module _ {N : Type 0} where
  -- Every name is greater than `bound`, and the names ascend.
  abbrev pub IsAbove : Name → Devices N → Type 0
  IsAbove bound [] = Unit {0}
  IsAbove bound ((name, n) ∷ rest) = (less_name bound name ≡ true) × IsAbove name rest

  abbrev pub IsAscending : Devices N → Type 0
  IsAscending [] = Unit {0}
  IsAscending ((name, n) ∷ rest) = IsAbove name rest

  IsAbove-weaken : (a b : Name) (m : Devices N) → less_name a b ≡ true → IsAbove b m → IsAbove a m
  IsAbove-weaken a b [] h k = tt
  IsAbove-weaken a b ((j, w) ∷ m) h (k, r) = (less_name_trans a b j h k, r)

  device_at-above : (a : Name) (m : Devices N) → IsAbove a m → device_at a m ≡ none
  unfolding device_at
  device_at-above a [] h = refl
  device_at-above a ((j, w) ∷ m) (h, r) =
      ground (arith, less_name_same a j h, device_at-above a m (IsAbove-weaken a j m h r))

  insert-IsAbove :
      (bound a : Name) (v : N) (m : Devices N)
      → less_name bound a ≡ true
      → IsAbove bound m
      → IsAbove bound (insert_device a v m)
  unfolding insert_device
  insert-IsAbove bound a v [] h k = (h, tt)
  insert-IsAbove bound a v ((j, w) ∷ m) h (k, r) = elim (Bool-cases (same_name a j)) [
    | inl e ↦ if_true (IsAbove bound) (same_name a j) _ _ e (k, r)
    | inr e ↦ if_false (IsAbove bound) (same_name a j) _ _ e (elim (Bool-cases (less_name a j)) [
      | inl l ↦ if_true (IsAbove bound) (less_name a j) _ _ l (h, (l, r))
      | inr l ↦
          if_false (IsAbove bound) (less_name a j) _ _ l
            (k, insert-IsAbove j a v m (less_name_total a j e l) r)
    ])
  ]

  insert-IsAscending :
      (a : Name) (v : N) (m : Devices N) → IsAscending m → IsAscending (insert_device a v m)
  unfolding insert_device
  insert-IsAscending a v [] h = tt
  insert-IsAscending a v ((j, w) ∷ m) h = elim (Bool-cases (same_name a j)) [
    | inl e ↦ if_true IsAscending (same_name a j) _ _ e h
    | inr e ↦ if_false IsAscending (same_name a j) _ _ e (elim (Bool-cases (less_name a j)) [
      | inl l ↦ if_true IsAscending (less_name a j) _ _ l (l, h)
      | inr l ↦
          if_false IsAscending (less_name a j) _ _ l
            (insert-IsAbove j a v m (less_name_total a j e l) h)
    ])
  ]

  IsAbove-IsAscending : (a : Name) (m : Devices N) → IsAbove a m → IsAscending m
  IsAbove-IsAscending a [] h = tt
  IsAbove-IsAscending a ((j, w) ∷ m) (h, r) = r

  less-absent :
      (n a j : Name) (m : Devices N)
      → IsAbove j m
      → same_name n a ≡ true
      → less_name a j ≡ true
      → (same_name n j ≡ false) × (device_at n m ≡ none)
  less-absent n a j m h e l =
      let l' = same-less n a j e l in
      (less_name_same n j l', device_at-above n m (IsAbove-weaken n j m l' h))

  device_at-insert :
      (n a : Name) (v : N) (m : Devices N)
      → IsAscending m
      → device_at n (insert_device a v m)
        ≡ or_else (device_at n m) (if same_name n a then some v else none)
  unfolding device_at insert_device
  device_at-insert n a v [] h = ground arith
  device_at-insert n a v ((j, w) ∷ m) h = ground (
    arith,
    same-both n a j,
    same_trans n a j,
    less-absent n a j m h,
    device_at-insert n a v m (IsAbove-IsAscending j m h),
  )

  abbrev pub map_option : (N → N) → Option N → Option N
  map_option f none = none
  map_option f (some n) = some (f n)

abbrev pub is_missing : Found → Bool
is_missing missing = true
is_missing _ = false

same_value : {A : Type 0} (x y : A) → some x ≡ some y → x ≡ y
same_value x y e = ap (value_or x) e

absent : {A : Type 0} (x : A) → none ≡ some x → ⊥
absent x e = true≢false (sym (ap is_some e))

module _ {N : Type 0} (yaml : Yaml N) where
  -- No section with options gives a path.
  abbrev pub HasNoPath : Devices N → Type 0
  HasNoPath [] = Unit {0}
  HasNoPath ((name, n) ∷ root) =
      ((same_name name options_name ≡ false) ⊎ (yaml.dcf_path n ≡ missing)) × HasNoPath root

  -- `current` stands in the last section with options that has a path, or is `start` where none has.
  abbrev pub IsLastPath : Name → Name → Devices N → Type 0
  IsLastPath start current root =
      ((current ≡ start) × HasNoPath root)
      ⊎ ((before : Devices N) × (name : Name) × (n : N) × (after : Devices N) × (root
            ≡ before ++ ((name, n) ∷ after))
          × (same_name name options_name ≡ true)
          × (yaml.dcf_path n ≡ path current)
          × HasNoPath after)

  -- A section with the path, where it has none.
  abbrev pub completed : Name → N → N
  completed current n = if is_missing (yaml.dcf_path n) then yaml.set_dcf_path current n else n

  later_path :
      (start current : Name) (e : Name × N) (root : Devices N)
      → ((same_name e.0 options_name ≡ false) ⊎ (yaml.dcf_path e.1 ≡ missing))
      → IsLastPath start current root
      → IsLastPath start current (e ∷ root)
  later_path start current e root first (inl (p, unset)) = inl (p, (first, unset))
  later_path start current e root first (inr (before, name, n, after, p, o, f, rest)) =
      inr (e ∷ before, name, n, after, ap (λ xs. e ∷ xs) p, o, f, rest)

  first_path :
      (start current text : Name) (name : Name) (n : N) (root : Devices N)
      → same_name name options_name ≡ true
      → yaml.dcf_path n ≡ path text
      → IsLastPath text current root
      → IsLastPath start current ((name, n) ∷ root)
  first_path start current text name n root o f (inl (p, unset)) =
      inr ([], name, n, root, refl, o, f ∙ ap path (sym p), unset)
  first_path start current text name n root o f (inr (before, k, m, after, p, l, g, rest)) =
      inr ((name, n) ∷ before, k, m, after, ap (λ xs. (name, n) ∷ xs) p, l, g, rest)

  Found-cases :
      (f : Found)
      → ((f ≡ missing) ⊎ ((text : Name) × (f ≡ path text))) ⊎ ((c : Name) → section_path c f ≡ none)
  Found-cases not_a_map = inr (λ c. refl)
  Found-cases missing = inl (inl refl)
  Found-cases malformed = inr (λ c. refl)
  Found-cases (path text) = inl (inr (text, refl))

  default_path-IsLastPath :
      (start current : Name) (root : Devices N)
      → default_path yaml start root ≡ some current
      → IsLastPath start current root
  unfolding default_path
  default_path-IsLastPath start current [] = λ h. inl (sym (same_value start current h), tt)
  default_path-IsLastPath start current ((name, n) ∷ root) =
      let next = λ (c : Name). default_path yaml c root in
      let P : Option Name → Type 0 =
        λ o. then_path o next ≡ some current → IsLastPath start current ((name, n) ∷ root) in
      elim (Bool-cases (same_name name options_name)) [
        | inr o ↦ if_false P (same_name name options_name) _ _ o (λ h.
            later_path start current (name, n) root (inl o)
              (default_path-IsLastPath start current root h))
        | inl o ↦
            if_true P (same_name name options_name) _ _ o (elim (Found-cases (yaml.dcf_path n)) [
              | inr f ↦ subst P (sym (f start)) (λ h. absurd (absent current h))
              | inl (inl f) ↦ subst P (sym (ap (section_path start) f)) (λ h.
                  later_path start current (name, n) root (inr f)
                    (default_path-IsLastPath start current root h))
              | inl (inr (text, f)) ↦ subst P (sym (ap (section_path start) f)) (λ h.
                  first_path start current text name n root o f
                    (default_path-IsLastPath text current root h))
            ])
      ]

  with_path-completed :
      (current : Name) (n v : N) (f : Found)
      → with_path yaml current n f ≡ some v
      → v ≡ (if is_missing f then yaml.set_dcf_path current n else n)
  with_path-completed current n v not_a_map h = absurd (absent v h)
  with_path-completed current n v missing h = sym (same_value (yaml.set_dcf_path current n) v h)
  with_path-completed current n v malformed h = sym (same_value n v h)
  with_path-completed current n v (path text) h = sym (same_value n v h)

  abbrev expected : Name → Name → Devices N → Devices N → Option N
  expected name current root m = or_else (device_at name m) (
      if same_name name options_name
      then none
      else map_option (completed current) (device_at name root))

  -- What entering the sections of `root` into `m` leaves, where nothing throws.
  abbrev Entered : Name → Name → Devices N → Devices N → Bool × Devices N → Type 0
  Entered name current root m (ok, m') =
      ok ≡ true → IsAscending m' × (device_at name m' ≡ expected name current root m)

  enter_one-Entered :
      (a name current : Name) (n : N) (root m : Devices N) (o : Option N)
      (rest : Devices N → Bool × Devices N)
      → ((v : N) → o ≡ some v → Entered name current ((a, n) ∷ root) m (rest (insert_device a v m)))
      → Entered name current ((a, n) ∷ root) m (enter_one a o rest m)
  enter_one-Entered a name current n root m none rest h = λ e. absurd (true≢false (sym e))
  enter_one-Entered a name current n root m (some v) rest h = h v refl

  enter_devices-Entered :
      (name current : Name) (root m : Devices N)
      → IsAscending m
      → Entered name current root m (enter_devices yaml current root m)
  unfolding enter_devices device_at
  enter_devices-Entered name current [] m h = λ e. (h, ground arith)
  enter_devices-Entered name current ((a, n) ∷ root) m h =
      let P = Entered name current ((a, n) ∷ root) m in
      elim (Bool-cases (same_name a options_name)) [
        | inl o ↦ if_true P (same_name a options_name) _ _ o (λ e.
            let rest = enter_devices-Entered name current root m h e in
            (rest.0, ground (arith, o, rest.1, same_trans name a options_name)))
        | inr o ↦ if_false P (same_name a options_name) _ _ o (
            enter_one-Entered a name current n root m (with_path yaml current n (yaml.dcf_path n))
              (enter_devices yaml current root)
              (λ v w e.
                let asc = insert-IsAscending a v m h in
                let rest = enter_devices-Entered name current root (insert_device a v m) asc e in
                (
                  rest.0,
                  ground (
                    arith,
                    o,
                    rest.1,
                    with_path-completed current n v (yaml.dcf_path n) w,
                    device_at-insert name a v m h,
                    same-both name a options_name,
                  ),
                )))
      ]

  -- Where `init_config` does not throw, on any file: the devices come in the order of their names, each
  -- once. A name other than "options" stands for the first section of the file with that name, to
  -- which a path is added where the section has none: the path in the last "options" section that has
  -- one, or the empty one; "options" is no device, and nothing else is.
  pub device_at-init_config :
      (root : Devices N) (name : Name)
      → (init_config yaml root).0 ≡ true
      → IsAscending (init_config yaml root).1
        × ((current : Name) × IsLastPath [] current root
            × (device_at name (init_config yaml root).1 ≡ (
                if same_name name options_name
                then none
                else map_option (completed current) (device_at name root))))
  unfolding init_config device_at
  device_at-init_config root name = by_path (default_path yaml [] root) refl
    where
      by_path :
          (o : Option Name)
          → default_path yaml [] root ≡ o
          → (enter_root yaml o root).0 ≡ true
          → IsAscending (enter_root yaml o root).1
            × ((current : Name) × IsLastPath [] current root
                × (device_at name (enter_root yaml o root).1 ≡ (
                    if same_name name options_name
                    then none
                    else map_option (completed current) (device_at name root))))
      by_path none e h = absurd (true≢false (sym h))
      by_path (some current) e h =
          let entered = enter_devices-Entered name current root [] tt h in
          (entered.0, (current, default_path-IsLastPath [] current root e, entered.1))
