-- ===== src/Core/Master.antt =====
-- The life of the master: `NodeCanopenMaster`
-- (canopen_core/include/canopen_core/node_interfaces/node_canopen_master.hpp) with the virtual
-- functions of `NodeCanopenBasicMaster`
-- (canopen_master_driver/include/canopen_master_driver/node_interfaces/node_canopen_basic_master_impl.hpp).
pub mod Laws
use ros2_canopen.Core.Action.{Action, throw, return, ◌>>◌, throw_if, modify, when}
use ros2_canopen.Base.{Bool, true, false, not, if◌then◌else◌, Option, none, some, ◌⊎◌, inl, inr}

-- The exceptions of `MasterException`; `by_hook` is one from a library.
pub data Error : Type 0 where
  init_configured init_activated configure_uninitialised configure_configured : Error
  configure_activated activate_uninitialised activate_unconfigured activate_activated : Error
  activate_no_master deactivate_uninitialised deactivate_unconfigured deactivate_inactive : Error
  cleanup_uninitialised cleanup_unconfigured cleanup_active no_master no_executor by_hook : Error

-- `master` is the bridge to lely that `master_` points to, and `executor` tells whether `exec_`
-- points to something.
pub record Master (M W : Type 0) : Type 0 where
  pub master : Option M
  pub executor : Bool
  pub master_set : Bool
  pub initialised : Bool
  pub configured : Bool
  pub activated : Bool
  pub world : W

-- ROS, YAML and lely; what gives false, or no bridge, has thrown. `open_bus` makes the input and
-- output objects, `start_loop` resets the master and starts the thread, `stop_loop` ends it.
pub record Libraries (M W : Type 0) : Type 0 where
  pub create_interfaces : W → Bool × W
  pub read_parameters : W → Bool × W
  pub open_bus : W → Bool × W
  pub make_bridge : W → Option M × W
  pub start_loop : W → Bool × W
  pub stop_loop : W → Bool × W

abbrev pub is_null {ℓ} : {A : Type ℓ} → Option A → Bool
is_null none = true
is_null (some _) = false

abbrev pub Method : Type 0 → Type 0 → Type 0
Method M W = Action Error (Master M W)

module _ {M W : Type 0} where
  abbrev pub make : W → Master M W
  make w = record {
    master = none;
    executor = false;
    master_set = false;
    initialised = false;
    configured = false;
    activated = false;
    world = w;
  }

  abbrev pub run : (W → Bool × W) → Method M W
  run hook s =
      let (ok, w) = hook s.world in
      if ok then return (record s { world = w }) else throw by_hook (record s { world = w })

  unfoldable pub cleanup : Method M W
  cleanup =
      throw_if (λ s. not s.initialised) cleanup_uninitialised
      >> throw_if (λ s. not s.configured) cleanup_unconfigured
      >> throw_if (λ s. s.activated) cleanup_active
      >> modify (λ s. record s { executor = false; configured = false; master_set = false })

  -- A null pointer is a result here.
  unfoldable pub get_master : Master M W → Error ⊎ Option M
  get_master s = if not s.master_set then inl no_master else inr s.master

  unfoldable pub get_executor : Master M W → Error ⊎ Bool
  get_executor s = if not s.master_set then inl no_executor else inr s.executor

module _ {M W : Type 0} (libraries : Libraries M W) where
  unfoldable pub init : Method M W
  init =
      throw_if (λ s. s.configured) init_configured
      >> throw_if (λ s. s.activated) init_activated
      >> run libraries.create_interfaces
      >> modify (λ s. record s { initialised = true })

  unfoldable pub configure : Method M W
  configure =
      throw_if (λ s. not s.initialised) configure_uninitialised
      >> throw_if (λ s. s.configured) configure_configured
      >> throw_if (λ s. s.activated) configure_activated
      >> run libraries.read_parameters
      >> modify (λ s. record s { configured = true })

  -- `NodeCanopenBasicMaster::activate(bool)`.
  abbrev pub set_bridge : Option M × W → Method M W
  set_bridge (none, w) s = throw by_hook (record s { world = w })
  set_bridge (some m, w) s = return (record s { master = some m; world = w })

  -- From the objects for input and output to the test for a null pointer.
  unfoldable pub open_master : Method M W
  open_master =
      run libraries.open_bus
      >> modify (λ s. record s { executor = true })
      >> (λ s. set_bridge (libraries.make_bridge s.world) s)
      >> throw_if (λ s. is_null s.master) activate_no_master

  unfoldable pub activate : Method M W
  activate =
      throw_if (λ s. not s.initialised) activate_uninitialised
      >> throw_if (λ s. not s.configured) activate_unconfigured
      >> throw_if (λ s. s.activated) activate_activated
      >> open_master
      >> modify (λ s. record s { master_set = true })
      >> run libraries.start_loop
      >> modify (λ s. record s { activated = true })

  -- With `NodeCanopenBasicMaster::deactivate(bool)`, which drops the master.
  unfoldable pub deactivate : Method M W
  deactivate =
      throw_if (λ s. not s.initialised) deactivate_uninitialised
      >> throw_if (λ s. not s.configured) deactivate_unconfigured
      >> throw_if (λ s. not s.activated) deactivate_inactive
      >> run libraries.stop_loop
      >> modify (λ s. record s { master = none })
      >> modify (λ s. record s { activated = false })

  unfoldable pub shutdown : Method M W
  shutdown =
      when (λ s. s.activated) deactivate
      >> when (λ s. s.configured) cleanup
      >> modify (λ s. record s {
        master_set = false;
        initialised = false;
        configured = false;
        activated = false;
      })
