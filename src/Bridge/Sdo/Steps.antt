-- ===== src/Bridge/Sdo/Steps.antt =====
-- The threads that use the SDO requests of one driver, in any order
-- (canopen_base_driver/include/canopen_base_driver/lely_driver_bridge.hpp,
-- canopen_base_driver/src/lely_driver_bridge.cpp).
use ros2_canopen.Base.{ℕ, ◌≡◌, ◌⊎◌, Bool, true, false, List, [], ◌∷◌, ◌++◌}
use ros2_canopen.Bridge.Dictionary.{Library}
use ros2_canopen.Bridge.Sdo.{Request, Answer, Call, State, begin, call, complete}

-- `made` are the requests that the threads make. Without `overtaking`, no thread calls between a
-- notification and the moment when the woken thread has the mutex. The order of the two lists of
-- threads and requests is not observable: `other_waiter` and `other_request` make each of them the
-- next one. A thread may also leave `sdo_cond.wait`, which has no predicate, without a notification,
-- where such wake-ups are `spurious`.
pub data Step {D : Type 0} (library : Library D) (accepts made : Request → Bool)
    (overtaking spurious : Bool) : State D → State D → Type 0 where
  calls :
      (id : ℕ) (r : Request) (s : State D)
      → made r ≡ true
      → ((overtaking ≡ true) ⊎ (s.woken ≡ []))
      → Step library accepts made overtaking spurious s (call library accepts id r s)
  resumes :
      (id : ℕ) (r : Request) (rest : List Call) (s : State D)
      → s.woken ≡ (id, r) ∷ rest
      → Step library accepts made overtaking spurious s
          (begin library accepts id r (record s { woken = rest }))
  answers :
      (id : ℕ) (r : Request) (rest : List Call) (a : Answer) (s : State D)
      → s.submitted ≡ (id, r) ∷ rest
      → Step library accepts made overtaking spurious s
          (complete library id r a (record s { submitted = rest }))
  wakes_up :
      (id : ℕ) (r : Request) (rest : List Call) (s : State D)
      → spurious ≡ true
      → s.waiting ≡ (id, r) ∷ rest
      → Step library accepts made overtaking spurious s
          (record s { waiting = rest; woken = s.woken ++ ((id, r) ∷ []) })
  other_waiter :
      (c : Call) (rest : List Call) (s : State D)
      → s.waiting ≡ c ∷ rest
      → Step library accepts made overtaking spurious s (record s { waiting = rest ++ (c ∷ []) })
  other_request :
      (c : Call) (rest : List Call) (s : State D)
      → s.submitted ≡ c ∷ rest
      → Step library accepts made overtaking spurious s (record s { submitted = rest ++ (c ∷ []) })

pub data Reach {D : Type 0} (library : Library D) (accepts made : Request → Bool)
    (overtaking spurious : Bool) (start : State D) : State D → Type 0 where
  starts : Reach library accepts made overtaking spurious start start
  continues :
      (s s' : State D)
      → Reach library accepts made overtaking spurious start s
      → Step library accepts made overtaking spurious s s'
      → Reach library accepts made overtaking spurious start s'

-- Nobody uses the driver.
abbrev pub IsIdle : {D : Type 0} → State D → Type 0
IsIdle s = (s.running ≡ false) × (s.submitted ≡ []) × (s.waiting ≡ []) × (s.woken ≡ [])
