-- ===== src/Control/Robot/Laws.antt =====
-- A request for two interfaces of a joint is never forgotten.
use ros2_canopen.Base.{
  ◌<◌, ◌≡◌, ◌⊎◌, inl, inr, refl, arith, length, length-append, Bool, true, false, List, [], ◌∷◌,
  ◌++◌, Bool-cases, if_true, if_false,
}
use ros2_canopen.Control.Drives.{MotorDrivers}
use ros2_canopen.Control.Robot.{
  Name, Joint, has_name, add_start, add_stop, at_owner, register, switch_by, perform_switch,
  perform_switches, perform_command_mode_switch,
}

module _ {F : Type 0} where
  -- Some joint has more than one interface to start.
  unfoldable pub IsClogged : List (Joint F) → Type 0
  IsClogged [] = ⊥
  IsClogged (s ∷ joints) = (1 < length s.interfaces_to_start) ⊎ IsClogged joints

  -- A change that forgets no interface to start.
  abbrev Keeps : (Joint F → Joint F) → Type 0
  Keeps f = (s : Joint F) → 1 < length s.interfaces_to_start → 1 < length (f s).interfaces_to_start

  at_owner-IsClogged :
      (f : Name → Joint F → Joint F) (name : Name) (joints : List (Joint F))
      → Keeps (f name)
      → IsClogged joints
      → IsClogged (at_owner f name joints)
  unfolding at_owner IsClogged
  at_owner-IsClogged f name [] k h = absurd h
  at_owner-IsClogged f name (s ∷ joints) k (inl h) =
      elim (Bool-cases (has_name name s.interfaces)) [
        | inl e ↦ if_true IsClogged (has_name name s.interfaces) _ _ e (inl (k s h))
        | inr e ↦ if_false IsClogged (has_name name s.interfaces) _ _ e (inl h)
      ]
  at_owner-IsClogged f name (s ∷ joints) k (inr h) =
      elim (Bool-cases (has_name name s.interfaces)) [
        | inl e ↦ if_true IsClogged (has_name name s.interfaces) _ _ e (inr h)
        | inr e ↦
            if_false IsClogged (has_name name s.interfaces) _ _ e
              (inr (at_owner-IsClogged f name joints k h))
      ]

  register-IsClogged :
      (f : Name → Joint F → Joint F) (names : List Name) (joints : List (Joint F))
      → ((name : Name) → Keeps (f name))
      → IsClogged joints
      → IsClogged (register f names joints)
  unfolding register
  register-IsClogged f [] joints k h = h
  register-IsClogged f (name ∷ names) joints k h =
      register-IsClogged f names (at_owner f name joints) k
        (at_owner-IsClogged f name joints (k name) h)

  add_start-Keeps : (name : Name) → Keeps (add_start name)
  add_start-Keeps name s h = omega (arith, length-append s.interfaces_to_start (name ∷ []))

  -- One joint is the first that has either of two interfaces, and has both.
  unfoldable pub IsShared : Name → Name → List (Joint F) → Type 0
  IsShared n m [] = ⊥
  IsShared n m (s ∷ joints) =
      ((has_name n s.interfaces ≡ true) × (has_name m s.interfaces ≡ true))
      ⊎ ((has_name n s.interfaces ≡ false)
          × (has_name m s.interfaces ≡ false)
          × IsShared n m joints)

  -- The first two interfaces that are to start are those of one joint.
  unfoldable pub AsksTwo : List Name → List (Joint F) → Type 0
  AsksTwo [] joints = ⊥
  AsksTwo (n ∷ []) joints = ⊥
  AsksTwo (n ∷ m ∷ names) joints = IsShared n m joints

  two_clog :
      (n m : Name) (joints : List (Joint F))
      → IsShared n m joints
      → IsClogged (at_owner add_start m (at_owner add_start n joints))
  unfolding IsShared IsClogged at_owner
  two_clog n m [] h = absurd h
  two_clog n m (s ∷ joints) (inl (a, b)) =
      rw (a, b)
        (inl (
          omega (
            arith,
            length-append s.interfaces_to_start (n ∷ []),
            length-append (s.interfaces_to_start ++ (n ∷ [])) (m ∷ []),
          )))
  two_clog n m (s ∷ joints) (inr (a, b, h)) = rw (a, b) (inr (two_clog n m joints h))

  start-IsClogged :
      (start : List Name) (joints : List (Joint F))
      → IsClogged joints ⊎ AsksTwo start joints
      → IsClogged (register add_start start joints)
  unfolding AsksTwo register
  start-IsClogged start joints (inl h) = register-IsClogged add_start start joints add_start-Keeps h
  start-IsClogged [] joints (inr h) = absurd h
  start-IsClogged (n ∷ []) joints (inr h) = absurd h
  start-IsClogged (n ∷ m ∷ names) joints (inr h) =
      register-IsClogged add_start names (at_owner add_start m (at_owner add_start n joints))
        add_start-Keeps (two_clog n m joints h)

  add_stop-Keeps : (name : Name) → Keeps (add_stop name)
  add_stop-Keeps name s h = h

  module _ {W : Type 0} (drivers : MotorDrivers F W) where
    -- A failure that leaves some joint with more than one interface to start.
    abbrev IsStuck : Bool × List (Joint F) × W → Type 0
    IsStuck (ok, joints, w) = (ok ≡ false) × IsClogged joints

    switch_by_fails :
        (names : List Name) (s : Joint F) (w : W)
        → 1 < length names
        → switch_by drivers names s w ≡ (false, s, w)
    switch_by_fails [] s w h = absurd (omega arith)
    switch_by_fails (name ∷ []) s w h = absurd (omega arith)
    switch_by_fails (name ∷ other ∷ names) s w h = refl

    perform_switches-IsStuck :
        (joints : List (Joint F)) (w : W)
        → IsClogged joints
        → IsStuck (perform_switches drivers joints w)
    unfolding perform_switches IsClogged
    perform_switches-IsStuck [] w h = absurd h
    perform_switches-IsStuck (s ∷ joints) w (inl h) =
        rw (switch_by_fails s.interfaces_to_start s w h) (refl, inl h)
    perform_switches-IsStuck (s ∷ joints) w (inr h) =
        let (ok, s', w') = perform_switch drivers s w in
        let rest = perform_switches-IsStuck joints w' h in
        elim (Bool-cases ok) [
          | inl e ↦ if_true IsStuck ok _ _ e (rest.0, inr rest.1)
          | inr e ↦ if_false IsStuck ok _ _ e (refl, inr h)
        ]

    -- A request whose first two interfaces to start belong to one joint fails, and is not forgotten:
    -- some joint then has more than one interface to start. And while some joint has, every request to
    -- switch fails, whatever it asks to start and to stop, and leaves some joint so.
    pub perform_command_mode_switch-IsClogged :
        (start stop : List Name) (joints : List (Joint F)) (w : W)
        → IsClogged joints ⊎ AsksTwo start joints
        → let (ok, joints', w') = perform_command_mode_switch drivers start stop joints w in
          (ok ≡ false) × IsClogged joints'
    unfolding perform_command_mode_switch
    perform_command_mode_switch-IsClogged start stop joints w h =
        perform_switches-IsStuck (register add_stop stop (register add_start start joints)) w (
          register-IsClogged add_stop stop (register add_start start joints) add_stop-Keeps
            (start-IsClogged start joints h))
