-- ===== src/Nodes/Base/Polls.antt =====
-- What the polling timer takes from the queues
-- (canopen_base_driver/include/canopen_base_driver/node_interfaces/node_canopen_base_driver_impl.hpp).
use ros2_canopen.Base.{ℕ, zero, suc, ◌≡◌, refl, Bool, true, List, [], ◌∷◌}
use ros2_canopen.Bridge.Boot.{CoEmcy}
use ros2_canopen.Bridge.Dictionary.{CoData}
use ros2_canopen.Nodes.Base.{drain, Handlers, Queues, poll_timer_callback}

module _ {ℓ} {A : Type ℓ} where
  abbrev pub take : ℕ → List A → List A
  take zero xs = []
  take (suc n) [] = []
  take (suc n) (x ∷ xs) = x ∷ take n xs

  abbrev pub drop : ℕ → List A → List A
  drop zero xs = xs
  drop (suc n) [] = []
  drop (suc n) (x ∷ xs) = drop n xs

  -- All elements are handled, from the first on.
  abbrev pub handle_all : {W : Type 0} → (A → W → Bool × W) → List A → W → W
  handle_all handle [] w = w
  handle_all handle (x ∷ xs) w = handle_all handle xs (handle x w).1

  drain_lem :
      {W : Type 0} (n : ℕ) (handle : A → W → Bool × W) (queue : List A) (w : W)
      → ((x : A) (w : W) → (handle x w).0 ≡ true)
      → drain n handle queue w ≡ (drop n queue, handle_all handle (take n queue) w)
  unfolding drain
  drain_lem zero handle queue w h = refl
  drain_lem (suc n) handle [] w h = refl
  drain_lem (suc n) handle (x ∷ queue) w h = rw (h x w) (drain_lem n handle queue (handle x w).1 h)

module _ {W : Type 0} (handlers : Handlers W) where
  -- With handlers that do not throw: the timer handles the ten oldest emergencies and then the ten
  -- oldest PDO values, or all if there are fewer, in the order in which they came, and leaves exactly
  -- the others in the queues.
  pub poll_timer_callback_lem :
      (q : Queues W)
      → ((x : CoEmcy) (w : W) → (handlers.on_emcy x w).0 ≡ true)
      → ((x : CoData) (w : W) → (handlers.on_rpdo x w).0 ≡ true)
      → poll_timer_callback handlers q ≡ record {
        emcy_queue = drop 10 q.emcy_queue;
        rpdo_queue = drop 10 q.rpdo_queue;
        world =
            handle_all handlers.on_rpdo
              (take 10 q.rpdo_queue)
              (handle_all handlers.on_emcy (take 10 q.emcy_queue) q.world);
      }
  unfolding poll_timer_callback
  poll_timer_callback_lem q a b =
      rw
        (
          drain_lem 10 handlers.on_emcy q.emcy_queue q.world a,
          drain_lem 10 handlers.on_rpdo q.rpdo_queue
              (handle_all handlers.on_emcy (take 10 q.emcy_queue) q.world) b,
        )
        refl
