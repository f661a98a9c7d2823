-- ===== src/Core/Driver.antt =====
-- The life of a driver: `NodeCanopenDriver`
-- (canopen_core/include/canopen_core/node_interfaces/node_canopen_driver.hpp,
-- canopen_core/src/node_interfaces/node_canopen_driver.cpp) and the nodes that own one
-- (canopen_core/src/driver_node.cpp). A method is state passing with exceptions: what was stored
-- before a throw stays stored.
pub mod Laws
pub mod Start
use ros2_canopen.Core.Action.{Result, Action, throw, return, continue, ◌>>◌, throw_if, modify, when}
use ros2_canopen.Base.{ℕ, zero, suc, Bool, true, false, not, if◌then◌else◌, Option, none, some}

-- The exceptions, by the call and the cause; `by_hook` is one from a virtual function or a library.
pub data Error : Type 0 where
  set_master_unconfigured set_master_activated init_configured init_activated : Error
  configure_uninitialised configure_configured configure_activated : Error
  activate_no_master activate_uninitialised activate_unconfigured activate_activated : Error
  deactivate_no_master deactivate_uninitialised deactivate_unconfigured : Error
  deactivate_inactive cleanup_uninitialised cleanup_unconfigured cleanup_activated : Error
  demand_unconfigured no_result by_hook demand_failed : Error

-- The flags, the pointers to the master and its executor (`none` for null), and the world that
-- the virtual functions and ROS act on.
pub record Node (M W : Type 0) : Type 0 where
  pub master : Option M
  pub master_set : Bool
  pub initialised : Bool
  pub configured : Bool
  pub activated : Bool
  pub world : W

-- How the service `init_driver` of the container answers: in time or not, and with which call of
-- `set_master` in the meantime, if any; the pointer that it passes may be null.
pub record Answer (M W : Type 0) : Type 0 where
  pub ready : Bool
  pub sent : Option (Option M)
  pub world : W

-- What a driver gets from the classes derived from `NodeCanopenDriver` and from ROS; a hook that
-- gives false has thrown.
pub record Hooks (M W : Type 0) : Type 0 where
  pub create_interfaces : W → Bool × W
  pub on_init : W → Bool × W
  pub read_parameters : W → Bool × W
  pub on_configure : W → Bool × W
  pub add_to_master : W → Bool × W
  pub on_activate : W → Bool × W
  pub remove_from_master : W → Bool × W
  pub on_deactivate : W → Bool × W
  pub on_shutdown : W → Bool × W
  pub init_driver : W → Answer M W

abbrev pub Method : Type 0 → Type 0 → Type 0
Method M W = Action Error (Node M W)

module _ {M W : Type 0} where
  -- The driver as it is constructed.
  abbrev pub make : W → Node M W
  make w = record {
    master = none;
    master_set = false;
    initialised = false;
    configured = false;
    activated = false;
    world = w;
  }

  abbrev pub run : (W → Bool × W) → Method M W
  run hook s =
      let (ok, w) = hook s.world in
      if ok then return (record s { world = w }) else throw by_hook (record s { world = w })

  unfoldable pub set_master : Option M → Method M W
  set_master m =
      throw_if (λ s. not s.configured) set_master_unconfigured
      >> throw_if (λ s. s.activated) set_master_activated
      >> modify (λ s. record s { master = m; master_set = true })

  -- The base class's `cleanup(bool)`.
  abbrev pub drop_master : Node M W → Node M W
  drop_master s = record s { master = none; master_set = false }

  unfoldable pub cleanup : Method M W
  cleanup =
      throw_if (λ s. not s.initialised) cleanup_uninitialised
      >> throw_if (λ s. not s.configured) cleanup_unconfigured
      >> throw_if (λ s. s.activated) cleanup_activated
      >> modify (λ s. record (drop_master s) { configured = false })

module _ {M W : Type 0} (hooks : Hooks M W) where
  unfoldable pub init : Method M W
  init =
      throw_if (λ s. s.configured) init_configured
      >> throw_if (λ s. s.activated) init_activated
      >> run hooks.create_interfaces
      >> run hooks.on_init
      >> modify (λ s. record s { initialised = true })

  unfoldable pub configure : Method M W
  configure =
      throw_if (λ s. not s.initialised) configure_uninitialised
      >> throw_if (λ s. s.configured) configure_configured
      >> throw_if (λ s. s.activated) configure_activated
      >> run hooks.read_parameters
      >> run hooks.on_configure
      >> modify (λ s. record s { configured = true })

  unfoldable pub activate : Method M W
  activate =
      throw_if (λ s. not s.master_set) activate_no_master
      >> throw_if (λ s. not s.initialised) activate_uninitialised
      >> throw_if (λ s. not s.configured) activate_unconfigured
      >> throw_if (λ s. s.activated) activate_activated
      >> run hooks.add_to_master
      >> run hooks.on_activate
      >> modify (λ s. record s { activated = true })

  unfoldable pub deactivate : Method M W
  deactivate =
      throw_if (λ s. not s.master_set) deactivate_no_master
      >> throw_if (λ s. not s.initialised) deactivate_uninitialised
      >> throw_if (λ s. not s.configured) deactivate_unconfigured
      >> throw_if (λ s. not s.activated) deactivate_inactive
      >> modify (λ s. record s { activated = false })
      >> run hooks.remove_from_master
      >> run hooks.on_deactivate

  unfoldable pub shutdown : Method M W
  unfolding deactivate cleanup
  shutdown =
      when (λ s. s.activated) deactivate
      >> when (λ s. s.configured) cleanup
      >> run hooks.on_shutdown
      >> modify (λ s. record s {
        master_set = false;
        initialised = false;
        configured = false;
        activated = false;
      })

  -- The container's call of `set_master`, if any, and then the service's answer. An exception of
  -- the call is thrown in the container.
  abbrev pub receive : Option (Option M) → Node M W → Node M W
  receive none s = s
  receive (some m) s = (set_master m s).after

  unfoldable pub demand_set_master : Method M W
  unfolding set_master
  demand_set_master = throw_if (λ s. not s.configured) demand_unconfigured >> λ s.
      let answer = hooks.init_driver s.world in
      let s' = receive answer.sent (record s { world = answer.world }) in
      if answer.ready then return s' else throw no_result s'

  abbrev pub after_attempt : Option Error → Method M W → Method M W
  after_attempt none again = return
  after_attempt (some _) again = again

  -- The loop of attempts, `n` being left, with the exception behind it.
  unfoldable pub attempt : ℕ → Method M W
  attempt zero s = throw demand_failed s
  attempt (suc n) s = let r = demand_set_master s in after_attempt r.error (attempt n) r.after

  -- `LifecycleCanopenDriver::on_configure`.
  unfoldable pub on_configure : Method M W
  on_configure = configure >> attempt 5

  -- `CanopenDriver::init`.
  unfoldable pub start_driver : Method M W
  start_driver = init >> configure >> attempt 5 >> activate
