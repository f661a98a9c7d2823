-- ===== src/Bridge/Boot/Laws.antt =====
-- When a boot-up counts as done, and which request a network state answers
-- (canopen_base_driver/include/canopen_base_driver/lely_driver_bridge.hpp,
-- canopen_base_driver/src/lely_driver_bridge.cpp).
use ros2_canopen.Base.{
  ℕ, ◌+◌, ◌<◌, ◌≡◌, ◌≢◌, ◌⊎◌, inl, inr, refl, arith, Bool, true, false, List, [], ◌∷◌, Bool-cases,
  if_true, if_false,
}
use ros2_canopen.Bridge.Boot.{
  Boot, on_boot, Wake, timeout, notified, Waited, ready, failed, wait, wait_for_boot, NmtState, Nmt,
  on_state, async_request_nmt,
}

notified_lem :
    (st es : ℕ) (s : Boot)
    → s.booted ≡ false
    → let (r, s') = wait (notified st es) s in
      (((es ≡ 0) ⊎ (es ≡ 76)) × (r ≡ ready) × (s'.booted ≡ true))
      ⊎ ((es ≢ 0) × (es ≢ 76) × (r ≡ failed es) × (s'.booted ≡ false))
unfolding on_boot
notified_lem st es s b = ground (arith, b)

-- How a wait that starts in `s` and ends by `w` may have gone.
abbrev pub IsWaited : Wake → Boot → Waited × Boot → Type 0
IsWaited w s (r, s') =
    ((r ≡ ready)
      × (s'.booted ≡ true)
      × ((s.booted ≡ true) ⊎ ((st : ℕ) × (es : ℕ) × (w ≡ notified st es) × ((es ≡ 0) ⊎ (es ≡ 76)))))
    ⊎ ((s'.booted ≡ false)
        × (s.booted ≡ false)
        × (((w ≡ timeout) × (r ≡ failed 84))
            ⊎ ((st : ℕ) × (es : ℕ) × (w ≡ notified st es)
                × (es ≢ 0)
                × (es ≢ 76)
                × (r ≡ failed es))))

wait-IsWaited : (w : Wake) (s : Boot) → s.booted ≡ false → IsWaited w s (wait w s)
wait-IsWaited timeout s b = inr (b, b, inl (refl, refl))
wait-IsWaited (notified st es) s b = elim (notified_lem st es s b) [
  | inl (e, t, k) ↦ inl (t, k, inr (st, es, refl, e))
  | inr (x, y, t, k) ↦ inr (k, b, inr (st, es, refl, x, y, t))
]

-- `wait_for_boot` returns exactly where the driver was booted before or a boot process reports no
-- error, or that the device was operational at first (L), before the time is over, and the driver
-- counts as booted then. Otherwise it throws, T where the time was over and the reported error
-- where there was one, and the driver does not.
pub wait_for_boot-IsWaited : (w : Wake) (s : Boot) → IsWaited w s (wait_for_boot w s)
unfolding wait_for_boot
wait_for_boot-IsWaited w s = elim (Bool-cases s.booted) [
  | inl b ↦ if_true (IsWaited w s) s.booted _ _ b (inl (refl, b, inl b))
  | inr b ↦ if_false (IsWaited w s) s.booted _ _ b (wait-IsWaited w s b)
]

-- What happens to the promises of the network state.
pub data Event : Type 0 where
  requests : Event
  reports : Bool → NmtState → Event

abbrev pub event : Event → Nmt → Nmt
event requests s = async_request_nmt s
event (reports free state) s = on_state free state s

abbrev pub events : List Event → Nmt → Nmt
events [] s = s
events (e ∷ es) s = events es (event e s)

-- The numbers of the promises fall from `bound` on.
abbrev pub IsFalling : ℕ → List (ℕ × NmtState) → Type 0
IsFalling bound [] = Unit {0}
IsFalling bound ((k, _) ∷ rest) = (k < bound) × IsFalling k rest

IsFalling-weaken : (a b : ℕ) (l : List (ℕ × NmtState)) → a < b → IsFalling a l → IsFalling b l
IsFalling-weaken a b [] lt h = tt
IsFalling-weaken a b ((k, _) ∷ l) lt (x, h) = (omega arith, h)

unfoldable pub IsOnce : Nmt → Type 0
IsOnce s = IsFalling (s.current + 1) s.granted × ((s.is_set ≡ true) ⊎ IsFalling s.current s.granted)

-- Before the first request there is a promise, and nothing was reported.
abbrev pub first_promise : Nmt
first_promise = record { is_set = false; current = 0; granted = [] }

event-IsOnce : (e : Event) (s : Nmt) → IsOnce s → IsOnce (event e s)
unfolding IsOnce on_state async_request_nmt
event-IsOnce requests s (a, b) =
    (IsFalling-weaken (s.current + 1) (s.current + 1 + 1) s.granted (omega arith) a, inr a)
event-IsOnce (reports free state) s (a, b) = elim (Bool-cases s.is_set) [
  | inl t ↦ if_true IsOnce s.is_set _ _ t (a, inl t)
  | inr f ↦ if_false IsOnce s.is_set _ _ f (elim b [
    | inl t ↦ absurd (ground (arith, t, f))
    | inr below ↦ elim (Bool-cases free) [
      | inl u ↦ if_true IsOnce free _ _ u ((omega arith, below), inl refl)
      | inr u ↦ if_false IsOnce free _ _ u (a, inr below)
    ]
  ])
]

events-IsOnce : (es : List Event) (s : Nmt) → IsOnce s → IsOnce (events es s)
events-IsOnce [] s h = h
events-IsOnce (e ∷ es) s h = events-IsOnce es (event e s) (event-IsOnce e s h)

-- Whatever requests are made and states reported, the lock being free or not, from the first
-- promise on: no promise is fulfilled twice, nor any but those that were made, and while no state
-- counts as taken, the last one made is open.
pub events-IsOnce_from_start : (es : List Event) → IsOnce (events es first_promise)
unfolding IsOnce
events-IsOnce_from_start es = events-IsOnce es first_promise (tt, inr tt)
